-- ===== src/Utils/Url.antt =====
-- src/common/utils.cpp: the URL encoding can be undone.
use chat_server.Base.{
  ℕ, zero, suc, ◌/◌, ◌%◌, ◌<◌, ◌≡◌, ◌≢◌, refl, ap, ◌∙◌, Bool, true, ◌&&◌, [], ◌∷◌, ◌++◌, arith,
  ◌==◌, ==_iff, All, Bool-cases, inl, inr,
}
use chat_server.Base.Text.{Str}
use chat_server.Utils.{to_hex, byte_of_hex, is_unreserved, encode_char, url_encode, url_decode}

abbrev IsByte : ℕ → Type 0
IsByte c = c < 256

all_below : ℕ → (ℕ → Bool) → Bool
all_below zero p = true
all_below (suc n) p = p n && all_below n p

all_below-at : (n : ℕ) (p : ℕ → Bool) (x : ℕ) → all_below n p ≡ true → x < n → p x ≡ true
unfolding all_below
all_below-at zero p x h b = absurd (omega arith)
all_below-at (suc n) p x h b = ground (arith, all_below-at n p x)

hex_table : all_below 256 (λ c. byte_of_hex (to_hex (c / 16)) (to_hex (c % 16)) == c) ≡ true
unfolding all_below byte_of_hex to_hex
hex_table = refl

-- The two hexadecimal digits of a byte read back as the byte.
byte_of_hex-to_hex : (c : ℕ) → c < 256 → byte_of_hex (to_hex (c / 16)) (to_hex (c % 16)) ≡ c
byte_of_hex-to_hex c h = (==_iff _ c).0 (all_below-at 256 _ c hex_table h)

url_decode-plain : (c : ℕ) (s : Str) → c ≢ b'+' → c ≢ b'%' → url_decode (c ∷ s) ≡ c ∷ url_decode s
unfolding url_decode
url_decode-plain c [] p q = ground arith
url_decode-plain c (d ∷ []) p q = ground arith
url_decode-plain c (d ∷ e ∷ s) p q = ground arith

url_decode-escape :
    (h l : ℕ) (s : Str) → url_decode (b'%' ∷ h ∷ l ∷ s) ≡ byte_of_hex h l ∷ url_decode s
unfolding url_decode
url_decode-escape h l s = refl

unreserved_not_plus : (c : ℕ) → is_unreserved c ≡ true → c ≢ b'+'
unfolding is_unreserved
unreserved_not_plus c h = ground arith

unreserved_not_percent : (c : ℕ) → is_unreserved c ≡ true → c ≢ b'%'
unfolding is_unreserved
unreserved_not_percent c h = ground arith

url_decode-encode_char :
    (c : ℕ) (s : Str) → c < 256 → url_decode (encode_char c ++ s) ≡ c ∷ url_decode s
unfolding encode_char
url_decode-encode_char c s h = elim (Bool-cases (is_unreserved c)) [
  | inl e ↦ rw e (url_decode-plain c s (unreserved_not_plus c e) (unreserved_not_percent c e))
  | inr e ↦ rw e (elim (Bool-cases (c == b' ')) [
    | inl space ↦
        rw (space, url_decode-escape b'2' b'0' s, (==_iff c b' ').0 space)
          (unfold byte_of_hex in refl)
    | inr other ↦
        rw (other, url_decode-escape (to_hex (c / 16)) (to_hex (c % 16)) s, byte_of_hex-to_hex c h)
  ])
]

-- For every text of bytes below 256, `urlDecode` of `urlEncode` of the text is the text.
pub url_decode-url_encode : (s : Str) → All IsByte s → url_decode (url_encode s) ≡ s
unfolding url_encode
url_decode-url_encode [] h = unfold url_decode in refl
url_decode-url_encode (c ∷ s) h =
    url_decode-encode_char c (url_encode s) h.0 ∙ ap (◌∷◌ c) (url_decode-url_encode s h.1)
