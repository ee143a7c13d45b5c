-- ===== src/World/Changes.antt =====
-- Code that leaves a part of the world alone or changes it in one known way, once.
use chat_server.Base.{ℕ, ◌≡◌, refl, ap, ◌∙◌, ◌⊎◌, inl, inr, Option, none, some}
use chat_server.Base.Int.{ℤ}
use chat_server.Base.Dict.{assign, int_key}
use chat_server.Frame.{Outcome}
use chat_server.UserMgr.{set_user_session}
use chat_server.World.{World, M, resume, if_found, ◌>>=◌}
use chat_server.World.Keeps.{Keeps, Keeps-at}

module _ {S X : Type 0} (f : World S → X) (g : X → X) where
  pub Changes : {A : Type 0} → M S A → Type 0
  Changes m = (w : World S) → (f (m w).1 ≡ f w) ⊎ (f (m w).1 ≡ g (f w))

  pub Changes-at :
      {A : Type 0} (m : M S A)
      → Changes m
      → (w : World S) → (f (m w).1 ≡ f w) ⊎ (f (m w).1 ≡ g (f w))
  unfolding Changes
  Changes-at m c = c

  pub Changes-later :
      {A B : Type 0} (m : M S A) (k : A → M S B)
      → Keeps f m
      → ((a : A) → Changes (k a))
      → Changes (m >>= k)
  unfolding Changes
  Changes-later {A} {B} m k hm hk w = go (m w) (Keeps-at f m hm w)
    where
      onward : (x y z : X) → (x ≡ y) ⊎ (x ≡ g y) → y ≡ z → (x ≡ z) ⊎ (x ≡ g z)
      onward x y z (inl same) e = inl (same ∙ e)
      onward x y z (inr new) e = inr (new ∙ ap g e)

      go :
          (r : Outcome A × World S)
          → f r.1 ≡ f w
          → (f (resume k r).1 ≡ f w) ⊎ (f (resume k r).1 ≡ g (f w))
      go (Outcome.ok a, v) e = onward (f (k a v).1) (f v) (f w) (hk a v) e
      go (Outcome.throws, v) e = inl e
      go (Outcome.fault, v) e = inl e

  pub Changes-first :
      {A B : Type 0} (m : M S A) (k : A → M S B)
      → Changes m
      → ((a : A) → Keeps f (k a))
      → Changes (m >>= k)
  unfolding Changes
  Changes-first {A} {B} m k hm hk w = go (m w) (hm w)
    where
      back : (x y : X) → x ≡ y → (y ≡ f w) ⊎ (y ≡ g (f w)) → (x ≡ f w) ⊎ (x ≡ g (f w))
      back x y e (inl same) = inl (e ∙ same)
      back x y e (inr new) = inr (e ∙ new)

      go :
          (r : Outcome A × World S)
          → (f r.1 ≡ f w) ⊎ (f r.1 ≡ g (f w))
          → (f (resume k r).1 ≡ f w) ⊎ (f (resume k r).1 ≡ g (f w))
      go (Outcome.ok a, v) e = back (f (k a v).1) (f v) (Keeps-at f (k a) (hk a) v) e
      go (Outcome.throws, v) e = e
      go (Outcome.fault, v) e = e

  pub Changes-kept : {A : Type 0} (m : M S A) → Keeps f m → Changes m
  unfolding Changes
  Changes-kept m k w = inl (Keeps-at f m k w)

  pub Changes-found :
      {A B : Type 0} (o : Option A) (m : M S B) (k : A → M S B)
      → Changes m
      → ((a : A) → Changes (k a))
      → Changes (if_found o m k)
  Changes-found none m k hm hk = hm
  Changes-found (some a) m k hm hk = hk a

-- `setUserSession` is such a change of UserMgr's map.
pub Changes-set_user_session :
    (S : Type 0) (uid : ℤ) (p : ℕ)
    → Changes (λ (w : World S). w.uid_to_session) (assign uid p) (set_user_session uid p)
unfolding Changes set_user_session
Changes-set_user_session S uid p w = inr refl
