-- ===== src/Service/CodeStore/Kept.antt =====
-- A code that was stored is there until it is consumed, replaced or out of date.
use axmi_pusher.Base.{
  some, refl, ◌&&◌, string_eq, ◌+◌, arith, ◌∙◌, leb, false, [], ◌≡◌, ◌==◌, ◌∷◌, ℕ, String, List,
  All,
}
use axmi_pusher.Base.Assoc.{lookup, Assoc, lookup-insert, lookup-remove, lookup-insert_self}
use axmi_pusher.Service.CodeStore.{
  Call, MemCode, memory_call, memory_set, memory_consume, memory_exists, consume_found,
  exists_found,
}

unfoldable pub memory_each : List Call → Assoc String MemCode → Assoc String MemCode
memory_each [] s = s
memory_each (c ∷ cs) s = memory_each cs (memory_call c s).0

one_elsewhere :
    (key : String) (c : Call) (s : Assoc String MemCode)
    → (c.key == key) ≡ false
    → lookup key (memory_call c s).0 ≡ lookup key s
unfolding memory_call memory_set memory_consume memory_exists consume_found exists_found
one_elsewhere key c s h = grind (arith, lookup-insert, lookup-remove)

each_elsewhere :
    (key : String) (cs : List Call) (s : Assoc String MemCode)
    → All (λ c. (c.key == key) ≡ false) cs
    → lookup key (memory_each cs s) ≡ lookup key s
unfolding memory_each
each_elsewhere key [] s h = refl
each_elsewhere key (c ∷ cs) s h =
    each_elsewhere key cs (memory_call c s).0 h.1 ∙ one_elsewhere key c s h.0

-- In memory, a code stored under a key at a time is found by Consume at a later time exactly if that
-- is within the time to live and the code given is the one stored, however many calls on other keys
-- come between the two.
pub consume_after_set :
    (key code given : String) (ttl at now : ℕ) (cs : List Call) (s : Assoc String MemCode)
    → All (λ c. (c.key == key) ≡ false) cs
    → (memory_consume key given now (memory_each cs (memory_set key code ttl at s))).1
      ≡ (leb now (at + ttl) && (code == given))
unfolding memory_consume memory_set consume_found
consume_after_set key code given ttl at now cs s h =
    rw
      (
        each_elsewhere key cs (memory_set key code ttl at s) h,
        lookup-insert_self key (record { code = code; exp = at + ttl }) s,
      )
      judged
  where
    judged :
        (consume_found key given now
          (memory_each cs (memory_set key code ttl at s))
          (some (record { code = code; exp = at + ttl }))).1
        ≡ (leb now (at + ttl) && (code == given))
    judged = ground arith
