-- ===== src/Service/CodeStore/Once.antt =====
-- A code is consumed at most once, in either store.
use axmi_pusher.Service.CodeStore.{
  Call, MemCode, RedisCode, set_code, consume_code, memory_call, redis_call, memory_set,
  memory_consume, memory_exists, consume_found, exists_found, consume_code_script, redis_serve,
  redis_set, redis_get,
}
use axmi_pusher.Base.Assoc.{lookup-insert, lookup-remove}
use axmi_pusher.Base.Assoc.{lookup-insert, lookup, lookup-remove, insert, remove, Assoc}
use axmi_pusher.Base.{
  refl, none, [], some, Bool, ◌≤◌, ◌∷◌, ◌+◌, Option, string_eq, arith, ◌==◌, is_some, if◌then◌else◌,
  ◌≡◌, ℕ, List, String,
}

-- How often a call stores a code under a key, and how often it is told that its code was right.
unfoldable pub sets : String → Call → ℕ
sets k c = if c.key == k then (elim c.op [ set_code code ttl ↦ 1 | _ ↦ 0 ]) else 0

unfoldable pub wins : String → Call → Option Bool → ℕ
wins k c none = 0
wins k c (some won) =
    if c.key == k then (elim c.op [ consume_code code ↦ if won then 1 else 0 | _ ↦ 0 ]) else 0

-- What an implementation of the store promises: a right answer uses up the code that was stored.
pub record OneTime (S : Type 0) : Type 1 where
  pub call : Call → S → S × Option Bool
  pub held : String → S → ℕ
  pub used_up :
      (k : String) (c : Call) (s : S)
      → wins k c (call c s).1 + held k (call c s).0 ≤ sets k c + held k s

module _ {S : Type 0} (api : OneTime S) where
  -- The calls, one after another: the store that they leave, the codes stored under a key, and the
  -- right answers for it.
  pub calls : String → List Call → S → S × (ℕ × ℕ)
  calls k [] s = (s, (0, 0))
  calls k (c ∷ cs) s =
      let (s', answer) = api.call c s in
      let (last, (stored, won)) = calls k cs s' in
      (last, (sets k c + stored, wins k c answer + won))

  -- However the calls come, a key has at most as many right answers as codes were stored for it.
  pub used_at_most_once :
      (k : String) (cs : List Call) (s : S) → (calls k cs s).1.1 ≤ (calls k cs s).1.0 + api.held k s
  unfolding calls
  used_at_most_once k [] s = omega arith
  used_at_most_once k (c ∷ cs) s =
      omega (arith, api.used_up k c s, used_at_most_once k cs (api.call c s).0)

  fresh_used_at_most_once :
      (k : String) (cs : List Call) (s : S)
      → api.held k s ≡ 0
      → (calls k cs s).1.1 ≤ (calls k cs s).1.0
  fresh_used_at_most_once k cs s h = omega (arith, used_at_most_once k cs s)

abbrev held_in : {V : Type 0} → String → Assoc String V → ℕ
held_in k s = if is_some (lookup k s) then 1 else 0

held-insert :
    {V : Type 0} (k j : String) (v : V) (s : Assoc String V)
    → held_in k (insert j v s) ≡ (if j == k then 1 else held_in k s)
held-insert k j v s = rw (lookup-insert j k v s) (ground arith)

held-remove :
    {V : Type 0} (k j : String) (s : Assoc String V)
    → held_in k (remove j s) ≡ (if j == k then 0 else held_in k s)
held-remove k j s = rw (lookup-remove j k s) (ground arith)

pub memory-used_up :
    (k : String) (c : Call) (s : Assoc String MemCode)
    → wins k c (memory_call c s).1 + held_in k (memory_call c s).0 ≤ sets k c + held_in k s
unfolding memory_call memory_set memory_consume memory_exists wins sets consume_found exists_found
memory-used_up k c s = grind (arith, held-insert, held-remove, string_eq.beq_iff c.key k)

pub redis-used_up :
    (k : String) (c : Call) (s : Assoc String RedisCode)
    → wins k c (redis_call c s).1 + held_in k (redis_call c s).0 ≤ sets k c + held_in k s
unfolding redis_call consume_code_script wins sets redis_serve redis_set redis_get
redis-used_up k c s = grind (arith, held-insert, held-remove, string_eq.beq_iff c.key k)

abbrev pub memory_code_store : OneTime (Assoc String MemCode)
memory_code_store = record { call = memory_call; held = held_in; used_up = memory-used_up }

abbrev pub redis_code_store : OneTime (Assoc String RedisCode)
redis_code_store = record { call = redis_call; held = held_in; used_up = redis-used_up }

-- Whatever calls come to a new store, whenever they come and whatever errors Redis has, there are
-- for each key at most as many right answers to Consume as there were calls of Set: a code works
-- once. It holds for both implementations.
pub codes_work_once :
    (k : String) (cs : List Call)
    → ((calls memory_code_store k cs []).1.1 ≤ (calls memory_code_store k cs []).1.0)
      × ((calls redis_code_store k cs []).1.1 ≤ (calls redis_code_store k cs []).1.0)
unfolding lookup
codes_work_once k cs = (
  fresh_used_at_most_once memory_code_store k cs [] refl,
  fresh_used_at_most_once redis_code_store k cs [] refl,
)
