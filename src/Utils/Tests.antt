-- ===== src/Utils/Tests.antt =====
-- Runs of the URL encoding.
use chat_server.Base.{◌≡◌, refl, arith}
use chat_server.Base.Text.{bytes}
use chat_server.Utils.{to_hex, is_unreserved, encode_char, url_encode, url_decode}
use chat_server.Utils.Url.{url_decode-url_encode}

encodes_reserved : url_encode (bytes "a b/c+d") ≡ bytes "a%20b%2Fc%2Bd"
unfolding url_encode encode_char is_unreserved to_hex
encodes_reserved = refl

decodes_plus : url_decode (bytes "a+b%2fc%4") ≡ bytes "a b/c%4"
unfolding url_decode
decodes_plus = refl

url_decode-url_encode_example : url_decode (url_encode (bytes "a b/c+d")) ≡ bytes "a b/c+d"
url_decode-url_encode_example = url_decode-url_encode (bytes "a b/c+d") (omega arith)
