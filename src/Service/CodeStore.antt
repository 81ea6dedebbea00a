-- ===== src/Service/CodeStore.antt =====
-- internal/service/codestore.go: the one-time codes, in memory and in Redis.
pub mod Once
pub mod Kept
use axmi_pusher.Base.Assoc.{remove, lookup, insert, Assoc}
use axmi_pusher.Base.{
  nat_eq, is_some, leb, ltb, string_eq, ◌==◌, false, if◌then◌else◌, true, ◌+◌, some, Option, Bool,
  none, ℕ, String,
}
use axmi_pusher.Service.RateLimit.{Reply, replied, lost_before, lost_after}

-- A call on a CodeStore, by its key.
pub data CodeOp : Type 0 where
  set_code : String → ℕ → CodeOp
  consume_code : String → CodeOp
  code_exists : CodeOp

-- One call: its key, the time at which it runs, and what a client of Redis sees of it.
pub record Call : Type 0 where
  pub op : CodeOp
  pub key : String
  pub at : ℕ
  pub reply : Reply

-- memCode
pub record MemCode : Type 0 where
  pub code : String
  pub exp : ℕ

unfoldable pub memory_set : String → String → ℕ → ℕ → Assoc String MemCode → Assoc String MemCode
memory_set key code ttl now s = insert key (record { code = code; exp = now + ttl }) s

unfoldable pub consume_found :
    String → String → ℕ → Assoc String MemCode → Option MemCode → Assoc String MemCode × Bool
consume_found key code now s none = (s, false)
consume_found key code now s (some mc) =
    let s' = remove key s in if ltb mc.exp now then (s', false) else (s', mc.code == code)

unfoldable pub memory_consume :
    String → String → ℕ → Assoc String MemCode → Assoc String MemCode × Bool
unfolding consume_found
memory_consume key code now s = consume_found key code now s (lookup key s)

unfoldable pub exists_found :
    String → ℕ → Assoc String MemCode → Option MemCode → Assoc String MemCode × Bool
exists_found key now s none = (s, false)
exists_found key now s (some mc) = if ltb mc.exp now then (remove key s, false) else (s, true)

unfoldable pub memory_exists : String → ℕ → Assoc String MemCode → Assoc String MemCode × Bool
unfolding exists_found
memory_exists key now s = exists_found key now s (lookup key s)

-- The methods of MemoryCodeStore behind the interface; none of them fails.
unfoldable pub memory_call : Call → Assoc String MemCode → Assoc String MemCode × Option Bool
memory_call c s = elim c.op [
  | set_code code ttl ↦ (memory_set c.key code ttl c.at s, some true)
  | consume_code code ↦ let (s', won) = memory_consume c.key code c.at s in (s', some won)
  | code_exists ↦ let (s', found) = memory_exists c.key c.at s in (s', some found)
]

-- A string of Redis, with the time at which its key ends, if any.
pub record RedisCode : Type 0 where
  pub value : String
  pub expire_at : Option ℕ

abbrev has_ended : ℕ → RedisCode → Bool
has_ended clock v = elim v.expire_at [ none ↦ false | some t ↦ leb t clock ]

unfoldable pub redis_get : String → ℕ → Assoc String RedisCode → Option RedisCode
redis_get key clock s = elim (lookup key s) [
  | none ↦ none
  | some v ↦ if has_ended clock v then none else some v
]

-- consumeCodeScript
unfoldable pub consume_code_script :
    String → String → ℕ → Assoc String RedisCode → Assoc String RedisCode × ℕ
unfolding redis_get
consume_code_script key code clock s = elim (redis_get key clock s) [
  | none ↦ (s, 0)
  | some v ↦ (remove key s, if v.value == code then 1 else 0)
]

-- SET key value PX ttl; a ttl of 0 sets no time to live.
unfoldable pub redis_set : String → String → ℕ → ℕ → Assoc String RedisCode → Assoc String RedisCode
redis_set key code ttl clock s =
    insert key (record { value = code; expire_at = if ttl == 0 then none else some (clock + ttl) })
      s

-- What the server does for a call, and its reply as the method reads it.
unfoldable pub redis_serve : Call → Assoc String RedisCode → Assoc String RedisCode × Bool
unfolding redis_set redis_get
redis_serve c s = elim c.op [
  | set_code code ttl ↦ (redis_set c.key code ttl c.at s, true)
  | consume_code code ↦
      let (s', answer) = consume_code_script c.key code c.at s in (s', answer == 1)
  | code_exists ↦ (s, is_some (redis_get c.key c.at s))
]

-- The methods of RedisCodeStore behind the interface: `none` is an error.
unfoldable pub redis_call : Call → Assoc String RedisCode → Assoc String RedisCode × Option Bool
unfolding redis_serve
redis_call c s = elim c.reply [
  | replied ↦ let (s', answer) = redis_serve c s in (s', some answer)
  | lost_before ↦ (s, none)
  | lost_after ↦ ((redis_serve c s).0, none)
]
