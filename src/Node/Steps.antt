-- ===== src/Node/Steps.antt =====
-- src/application/LogicSystem.cpp with src/net/CSession.cpp: one event of a node, and the login
-- counter after it.
use chat_server.Base.{
  ℕ, ◌+◌, ◌==◌, ==_iff, ◌≡◌, refl, sym, ap, ◌∙◌, true, false, some, length, Bool-cases, inl, inr,
  arith,
}
use chat_server.Base.Int.{ℤ, pos}
use chat_server.Base.Text.{Str}
use chat_server.Services.{Services, HashLaws}
use chat_server.World.{World}
use chat_server.Session.{handle_accept, close}
use chat_server.Logic.Presence.{
  counter, bound, closed, bind_user-bound, counter-bound, close-closed, counter-closed,
}
use chat_server.Node.{Event, accepts, logs_in, closes}
use chat_server.Node.Tracks.{
  true-ne-false, or-true, one_more, elem_self, AllFit-update, Tracks, Keeps, accepted-sessions,
}
use chat_server.Node.Online.{
  elem, without, Online, after, IsPossible, length-without, NoDup-without, elem-without_self,
  elem-without_other, without-absent,
}

module _ {S : Type 0} (E : Services S) (laws : HashLaws E) where
  absent :
      (p : ℕ) (o : Online) (w : World S)
      → Tracks E o w
      → elem p o.open_ones ≡ false
      → elem p o.online ≡ false
  absent p o w t h = elim (Bool-cases (elem p o.online)) [
    | inl e ↦ absurd (true-ne-false (sym (t.opened p e) ∙ h))
    | inr e ↦ e
  ]

  accepts-Keeps :
      (p : ℕ) (id : Str) (o : Online) (w : World S)
      → Tracks E o w
      → IsPossible (accepts p id) o
      → Keeps E (accepts p id) o w
  unfolding handle_accept
  accepts-Keeps p id o w t h = (
    refl,
    record {
      count = t.count;
      bounded = t.bounded;
      no_dup = t.no_dup;
      opened = λ q e. rw (t.opened q e) (or-true (p == q));
      fit = rw (accepted-sessions E p id w) (
          AllFit-update w.sessions p _ o (after (accepts p id) o) t.fit
            (λ e. (refl, sym (absent p o w t h))) (λ q k. (rw k refl, refl)));
    },
  )

  logs_in-Keeps :
      (p : ℕ) (uid : ℤ) (o : Online) (w : World S)
      → Tracks E o w
      → IsPossible (logs_in p uid) o
      → Keeps E (logs_in p uid) o w
  unfolding bound
  logs_in-Keeps p uid o w t h =
      let n = length o.online in
      rw (bind_user-bound E laws p uid n w t.count h.3) (
        refl,
        record {
          count = counter-bound E laws p uid n w h.3 ∙ ap (λ k. some (pos k)) (one_more n);
          bounded = omega (arith, h.3);
          no_dup = (h.1, t.no_dup);
          opened = λ q e. elim (Bool-cases (p == q)) [
            | inl k ↦ rw (← (==_iff p q).0 k) h.0
            | inr k ↦ t.opened q (rw k at e)
          ];
          fit =
              AllFit-update w.sessions p (record (w.sessions p) { user_uid = uid }) o
                (after (logs_in p uid) o) t.fit
                (λ e. ((t.fit p h.0).0, h.2 ∙ sym (elem_self p o.online)))
                (λ q k. (refl, rw k refl));
        },
      )

  -- What closing does to the lists.
  still_open :
      (p : ℕ) (o : Online) (w : World S)
      → Tracks E o w
      → (q : ℕ) → elem q (without p o.online) ≡ true
      → elem q (without p o.open_ones) ≡ true
  still_open p o w t q h = elim (Bool-cases (p == q)) [
    | inl k ↦
        let gone : elem q (without p o.online) ≡ false =
          rw (← (==_iff p q).0 k) (elem-without_self p o.online) in
        absurd (true-ne-false (sym h ∙ gone))
    | inr k ↦
        elem-without_other p q o.open_ones k
        ∙ t.opened q (sym (elem-without_other p q o.online k) ∙ h)
  ]

  left_out : {A : Type 0} (p : ℕ) (o : Online) → elem p (without p o.open_ones) ≡ true → A
  left_out p o e = absurd (true-ne-false (sym e ∙ elem-without_self p o.open_ones))

  others_stay :
      (p : ℕ) (o : Online) (q : ℕ)
      → (p == q) ≡ false
      → (elem q (without p o.open_ones) ≡ elem q o.open_ones)
        × (elem q (without p o.online) ≡ elem q o.online)
  others_stay p o q k = (elem-without_other p q o.open_ones k, elem-without_other p q o.online k)

  closes_online-Keeps :
      (p n : ℕ) (o : Online) (w : World S)
      → Tracks E o w
      → IsPossible (closes p) o
      → elem p o.online ≡ true
      → length (without p o.online) ≡ n
      → Keeps E (closes p) o w
  unfolding closed
  closes_online-Keeps p n o w t h on e =
      let longer = length-without p o.online t.no_dup on in
      let counted : counter E w ≡ some (pos (n + 1)) =
        t.count ∙ ap (λ k. some (pos k)) (rw (← e) longer) in
      let s = w.sessions p in
      let fits = t.fit p h in
      rw (close-closed E laws p s.user_uid n w counted fits.0 refl (fits.1 ∙ on)) (
        refl,
        record {
          count =
              counter-closed E laws p s.user_uid n w (omega (arith, t.bounded, longer, e))
              ∙ ap (λ k. some (pos k)) (sym e);
          bounded = omega (arith, t.bounded, longer);
          no_dup = NoDup-without p o.online t.no_dup;
          opened = still_open p o w t;
          fit =
              AllFit-update w.sessions p _ o (after (closes p) o) t.fit (left_out p o)
                (others_stay p o);
        },
      )

  closes_other-Keeps :
      (p : ℕ) (o : Online) (w : World S)
      → Tracks E o w
      → IsPossible (closes p) o
      → elem p o.online ≡ false
      → Keeps E (closes p) o w
  unfolding close
  closes_other-Keeps p o w t h off =
      let fits = t.fit p h in
      let same = without-absent p o.online off in
      rw (close, fits.0, fits.1 ∙ off)
        (
          refl,
          record {
            count = rw same t.count;
            bounded = rw same t.bounded;
            no_dup = NoDup-without p o.online t.no_dup;
            opened = still_open p o w t;
            fit =
                AllFit-update w.sessions p _ o (after (closes p) o) t.fit (left_out p o)
                  (others_stay p o);
          },
        )

  closes-Keeps :
      (p : ℕ) (o : Online) (w : World S)
      → Tracks E o w
      → IsPossible (closes p) o
      → Keeps E (closes p) o w
  closes-Keeps p o w t h = elim (Bool-cases (elem p o.online)) [
    | inl on ↦ closes_online-Keeps p (length (without p o.online)) o w t h on refl
    | inr off ↦ closes_other-Keeps p o w t h off
  ]

  pub event-Keeps :
      (e : Event) (o : Online) (w : World S) → Tracks E o w → IsPossible e o → Keeps E e o w
  event-Keeps (accepts p id) o w t h = accepts-Keeps p id o w t h
  event-Keeps (logs_in p uid) o w t h = logs_in-Keeps p uid o w t h
  event-Keeps (closes p) o w t h = closes-Keeps p o w t h
