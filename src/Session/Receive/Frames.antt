-- ===== src/Session/Receive/Frames.antt =====
-- src/net/CSession.cpp: a frame that arrives in pieces becomes one message for the logic thread.
use chat_server.Base.{
  ℕ, ◌+◌, ◌≤◌, ◌<◌, ◌≡◌, ap, ◌∙◌, true, false, List, [], ◌∷◌, ◌++◌, arith, length, leb, ltb,
  length-append, All,
}
use mathlib.Core.List.{append_assoc, append-nil}
use chat_server.Base.Text.{Str}
use chat_server.Domain.{max_length}
use chat_server.Services.{Services}
use chat_server.Frame.{Outcome}
use chat_server.World.{World, Purpose, Reading, M, skip, catch, ◌>>◌}
use chat_server.World.Store.{update_self, with_reading, store, bind-ok}
use chat_server.Session.Receive.{received, read_event, on_bytes, on_read}

abbrev pub joined : List Str → Str
joined [] = []
joined (c ∷ cs) = c ++ joined cs

module _ {S : Type 0} (E : Services S) where
  -- Reads that complete with these pieces, a first one and then the others.
  pub feed : ℕ → Str → List Str → M S (Unit {0})
  feed p c [] = read_event E p (received c)
  feed p c (d ∷ cs) = do read_event E p (received c); feed p d cs

  on_bytes_some :
      (p : ℕ) (c got : Str) (want : ℕ) (purpose : Purpose) (w : World S)
      → want ≤ max_length
      → length got + length c < want
      → on_bytes E p c (Reading.reading purpose got want) w
        ≡ (Outcome.ok tt, with_reading p (Reading.reading purpose (got ++ c) want) w)
  unfolding on_bytes
  on_bytes_some p c got want purpose w b h = rw (small, more, on_bytes)
    where
      small : ltb max_length (length (got ++ c)) ≡ false
      small = ground (arith, length-append got c)

      more : leb want (length (got ++ c)) ≡ false
      more = ground (arith, length-append got c)

  on_bytes_last :
      (p : ℕ) (c got : Str) (want : ℕ) (purpose : Purpose) (w : World S)
      → want ≤ max_length
      → length got + length c ≡ want
      → on_bytes E p c (Reading.reading purpose got want) w
        ≡ catch (on_read E p purpose (got ++ c) want) skip (with_reading p Reading.idle w)
  unfolding on_bytes
  on_bytes_last p c got want purpose w b h = rw (small, more, on_bytes)
    where
      small : ltb max_length (length (got ++ c)) ≡ false
      small = ground (arith, length-append got c)

      more : leb want (length (got ++ c)) ≡ true
      more = ground (arith, length-append got c)

  -- Pieces that make up what a read waits for are handed over as a whole.
  pub feed-handed :
      (p : ℕ) (c : Str) (cs : List Str) (got : Str) (want : ℕ) (purpose : Purpose) (w : World S)
      → All (λ d. 0 < length d) cs
      → length got + length (joined (c ∷ cs)) ≡ want
      → want ≤ max_length
      → (w.sessions p).reading ≡ Reading.reading purpose got want
      → feed p c cs w
        ≡ catch
            (on_read E p purpose (got ++ joined (c ∷ cs)) want)
            skip
            (with_reading p Reading.idle w)
  unfolding feed read_event
  feed-handed p c [] got want purpose w ne sum b e =
      rw (e, append-nil c)
        (on_bytes_last p c got want purpose w b (omega (arith, ap length (append-nil c))))
  feed-handed p c (d ∷ cs) got want purpose w ne sum b e =
      bind-ok (read_event E p (received c)) (λ _. feed p d cs) w
        (rw e (on_bytes_some p c got want purpose w b short))
      ∙ (feed-handed p d cs (got ++ c) want purpose
            (with_reading p (Reading.reading purpose (got ++ c) want) w) ne.1 rest b
            (rw (
              update_self w.sessions p
                (record (w.sessions p) { reading = Reading.reading purpose (got ++ c) want })))
          ∙ simp (store, append_assoc))
    where
      short : length got + length c < want
      short = omega (arith, length-append c (d ++ joined cs), length-append d (joined cs), ne.0)

      rest : length (got ++ c) + length (joined (d ∷ cs)) ≡ want
      rest = omega (arith, length-append got c, length-append c (d ++ joined cs))
