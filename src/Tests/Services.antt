-- ===== src/Tests/Services.antt =====
-- The limiters, the codes and the rendering of templates at concrete inputs.
use axmi_pusher.Base.{nat_eq, string_eq, text_eq}
use axmi_pusher.Base.Keys.{codes}
use axmi_pusher.Base.{
  String, nat_eq, ◌&&◌, text_beq, ◌*◌, leb, ◌≤◌, Bool, string_eq, refl, arith, ◌+◌, Text, [], none,
  List, ◌≡◌, ◌∷◌, ◌==◌,
}
use Prim.Native.Nat.{min}
use axmi_pusher.Base.Assoc.{Assoc, lookup}
use axmi_pusher.Service.RateLimit.{MemoryRateLimiter, TokenBucket, unit, replied, lost_after}
use axmi_pusher.Service.RateLimit.Bucket.{allow_each, allowed_bounded, burst, calls_at}
use axmi_pusher.Service.RateLimit.FixedWindow.{redis_each, window_exact}
use axmi_pusher.Service.CodeStore.{Call, set_code, consume_code, memory_set, memory_consume}
use axmi_pusher.Service.CodeStore.Once.{calls, memory_code_store, redis_code_store, codes_work_once}
use axmi_pusher.Service.CodeStore.Kept.{memory_each, consume_after_set}
use axmi_pusher.Service.Template.{match_var, render_from, render_template}
use axmi_pusher.Service.Template.Pieces.{
  Piece, literal, variable, print, meaning, IsPiece, render_template-print,
}

abbrev limiter : MemoryRateLimiter
limiter = record { buckets = []; per_minute = 2 }

abbrev half_full : TokenBucket
half_full = record { tokens = unit; last = 100 }

allowed_bounded_example :
    (allow_each 2 half_full (100 ∷ 101 ∷ 102 ∷ [])).1 * unit
      + (allow_each 2 half_full (100 ∷ 101 ∷ 102 ∷ [])).0.tokens
      + 100 * 2
    ≤ unit + (allow_each 2 half_full (100 ∷ 101 ∷ 102 ∷ [])).0.last * 2
allowed_bounded_example =
    allowed_bounded 2 half_full (100 ∷ 101 ∷ 102 ∷ [])
      (omega arith, (omega arith, (omega arith, tt)))

burst_example : (calls_at 5 limiter 1 100).1 ≡ min 5 3
unfolding lookup
burst_example = burst 4 limiter 1 100 refl

window_exact_example : (redis_each 2 none (5 ∷ 6 ∷ 7 ∷ 60004 ∷ [])).1 ≡ min 4 2
window_exact_example =
    window_exact 2 5 (6 ∷ 7 ∷ 60004 ∷ []) (omega arith)
      (omega arith, (omega arith, (omega arith, tt)))

abbrev code_calls : List Call
code_calls =
    record { op = set_code "123456" 600; key = "a@b"; at = 10; reply = replied }
    ∷ record { op = consume_code "123456"; key = "a@b"; at = 20; reply = lost_after }
    ∷ record { op = consume_code "123456"; key = "a@b"; at = 21; reply = replied }
    ∷ []

codes_work_once_example :
    ((calls memory_code_store "a@b" code_calls []).1.1
      ≤ (calls memory_code_store "a@b" code_calls []).1.0)
    × ((calls redis_code_store "a@b" code_calls []).1.1
        ≤ (calls redis_code_store "a@b" code_calls []).1.0)
codes_work_once_example = codes_work_once "a@b" code_calls

abbrev other_calls : List Call
other_calls = record { op = consume_code "1"; key = "c@d"; at = 15; reply = replied } ∷ []

-- The code given is the code stored.
abbrev given_right : Bool
given_right = let code : String = "123456" in code == code

consume_after_set_example :
    (memory_consume "a@b" "123456" 20
      (memory_each other_calls (memory_set "a@b" "123456" 600 10 []))).1
    ≡ (leb 20 (10 + 600) && given_right)
consume_after_set_example =
    consume_after_set "a@b" "123456" "123456" 600 10 20 other_calls [] (refl, tt)

abbrev hello : List Piece
hello =
    literal b'H'
    ∷ literal b'}'
    ∷ variable (b' ' ∷ []) b'a' (b'1' ∷ []) []
    ∷ variable [] b'b' [] []
    ∷ []

abbrev hello_params : Assoc Text Text
hello_params = (codes "a1", codes "{{b}}") ∷ []

render_template-print_example :
    render_template hello_params (print hello) ≡ meaning hello_params hello
unfolding IsPiece
render_template-print_example =
    render_template-print hello_params hello
      (refl, (refl, ((((refl, tt)), ((refl, (refl, tt)), tt)), ((tt, ((refl, tt), tt)), tt))))

hello_text : print hello ≡ codes "H}{{ a1}}{{b}}"
unfolding print
hello_text = refl

hello_rendered : render_template hello_params (codes "H}{{ a1}}{{b}}") ≡ codes "H}{{b}}"
unfolding render_template render_from match_var lookup text_beq
hello_rendered = refl
