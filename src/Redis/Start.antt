-- ===== src/Redis/Start.antt =====
-- src/infra/redis/RedisConPool.cpp: how the pool is opened at the start, and reopened. hiredis is an
-- argument; the check thread, which the constructor starts at its end, is Pool's `check_thread_pro`.
use mathlib.Core.List.{append_assoc, append-nil}
use chat_server.Base.{
  ℕ, zero, suc, ◌+◌, ◌≡◌, refl, sym, ap, ◌∙◌, Bool, true, false, List, [], ◌∷◌, ◌++◌, Option, none,
  some,
}
use chat_server.Base.Text.{Str, bytes}
use chat_server.Frame.{Outcome}
use chat_server.Pool.{Pool}
use chat_server.Config.{ConfigMap, config_value}

-- What `redisConnect` and the AUTH behind it come to.
pub data Attempt (C : Type 0) : Type 0 where
  null_context : Attempt C
  error_context : Attempt C
  null_reply : Attempt C
  error_reply : Attempt C
  connected : C → Attempt C

module _ {C : Type 0} where
  abbrev pub attempts : (ℕ → Attempt C) → ℕ → ℕ → List (Attempt C)
  attempts connect i zero = []
  attempts connect i (suc n) = connect i ∷ attempts connect (i + 1) n

  -- The loop of the constructor. Without a reply, the text of the null pointer is printed.
  unfoldable pub open_contexts : List (Attempt C) → List C → Outcome (List C)
  open_contexts [] cs = Outcome.ok cs
  open_contexts (Attempt.null_context ∷ rest) cs = open_contexts rest cs
  open_contexts (Attempt.error_context ∷ rest) cs = open_contexts rest cs
  open_contexts (Attempt.null_reply ∷ rest) cs = Outcome.fault
  open_contexts (Attempt.error_reply ∷ rest) cs = open_contexts rest cs
  open_contexts (Attempt.connected c ∷ rest) cs = open_contexts rest (cs ++ c ∷ [])

  -- The constructor of the pool, from the attempt of each turn.
  unfoldable pub redis_con_pool : ℕ → (ℕ → Attempt C) → Outcome (Pool C)
  redis_con_pool pool_size connect = elim (open_contexts (attempts connect 0 pool_size) []) [
    | Outcome.ok cs ↦ Outcome.ok (record { connections = cs; b_stop = false })
    | Outcome.throws ↦ Outcome.throws
    | Outcome.fault ↦ Outcome.fault
  ]

  -- The constructor of RedisMgr, which reads the port by `atoi`.
  pub redis_mgr_pool : (Str → Str → Str → ℕ → Attempt C) → ConfigMap → Outcome (Pool C)
  redis_mgr_pool connect config = redis_con_pool 5 (
      connect (config_value (bytes "Redis") (bytes "Host") config)
        (config_value (bytes "Redis") (bytes "Port") config)
        (config_value (bytes "Redis") (bytes "Passwd") config))

  -- `reconnect`: the connection that it pushes, or `false`.
  abbrev pub reconnect : Attempt C → Option C
  reconnect (Attempt.connected c) = some c
  reconnect _ = none

  -- The connections that `reconnect` would open, one attempt after another.
  abbrev pub reopened : List (Attempt C) → List C
  reopened [] = []
  reopened (a ∷ rest) = elim (reconnect a) [ none ↦ reopened rest | some c ↦ c ∷ reopened rest ]

  -- Whether AUTH got no reply at all in one of the attempts.
  abbrev pub has_null_reply : List (Attempt C) → Bool
  has_null_reply [] = false
  has_null_reply (Attempt.null_reply ∷ rest) = true
  has_null_reply (_ ∷ rest) = has_null_reply rest

  open_contexts-lem :
      (tries : List (Attempt C)) (cs : List C)
      → has_null_reply tries ≡ false
      → open_contexts tries cs ≡ Outcome.ok (cs ++ reopened tries)
  unfolding open_contexts
  open_contexts-lem [] cs h = ap Outcome.ok (sym (append-nil cs))
  open_contexts-lem (Attempt.null_context ∷ rest) cs h = open_contexts-lem rest cs h
  open_contexts-lem (Attempt.error_context ∷ rest) cs h = open_contexts-lem rest cs h
  open_contexts-lem (Attempt.null_reply ∷ rest) cs h = cc
  open_contexts-lem (Attempt.error_reply ∷ rest) cs h = open_contexts-lem rest cs h
  open_contexts-lem (Attempt.connected c ∷ rest) cs h =
      open_contexts-lem rest (cs ++ c ∷ []) h
      ∙ ap Outcome.ok (append_assoc cs (c ∷ []) (reopened rest))

  open_contexts-fault :
      (tries : List (Attempt C)) (cs : List C)
      → has_null_reply tries ≡ true
      → open_contexts tries cs ≡ Outcome.fault
  unfolding open_contexts
  open_contexts-fault [] cs h = cc
  open_contexts-fault (Attempt.null_context ∷ rest) cs h = open_contexts-fault rest cs h
  open_contexts-fault (Attempt.error_context ∷ rest) cs h = open_contexts-fault rest cs h
  open_contexts-fault (Attempt.null_reply ∷ rest) cs h = refl
  open_contexts-fault (Attempt.error_reply ∷ rest) cs h = open_contexts-fault rest cs h
  open_contexts-fault (Attempt.connected c ∷ rest) cs h = open_contexts-fault rest (cs ++ c ∷ []) h

  -- The constructor dereferences a null pointer if AUTH gets no reply in one of its attempts, and
  -- else it opens the pool with the connections that `reconnect` would open, in their order.
  pub redis_con_pool_lem :
      (n : ℕ) (connect : ℕ → Attempt C)
      → let tries = attempts connect 0 n in
        (has_null_reply tries ≡ true → redis_con_pool n connect ≡ Outcome.fault)
        × (has_null_reply tries ≡ false
            → redis_con_pool n connect
              ≡ Outcome.ok (record { connections = reopened tries; b_stop = false }))
  unfolding redis_con_pool
  redis_con_pool_lem n connect =
      let tries = attempts connect 0 n in
      (
        λ h. rw (redis_con_pool, open_contexts-fault tries [] h),
        λ h. rw (redis_con_pool, open_contexts-lem tries [] h),
      )
