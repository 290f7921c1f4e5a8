-- ===== src/Gateway/Http/Calls.antt =====
-- The calls that the requests of the HTTP process wait for, and where they stand among them.
use distributed_model_server.Prelude.{
  remove_at, ℕ, zero, suc, ◌≡◌, refl, sym, ap, ◌∙◌, ◌++◌, List, [], ◌∷◌, some, get_elem?,
}
use distributed_model_server.Gateway.Client.{Call}
use distributed_model_server.Gateway.System.{System}
use distributed_model_server.Gateway.App.Validation.{Arguments}
use distributed_model_server.Gateway.Http.{
  Task, entering, handling, getting, in_flight, returning, HttpGateway,
}

-- The call of a request that waits for an RPC.
abbrev pub call_in : Task → List Call
call_in (entering size generated payload) = []
call_in (handling generated payload) = []
call_in (getting e) = []
call_in (in_flight a k t0) = k ∷ []
call_in (returning h) = []

-- The calls of the requests that wait for an RPC.
abbrev pub calls_of : List Task → List Call
calls_of [] = []
calls_of (t ∷ ts) = call_in t ++ calls_of ts

-- What the event loop sees of the process.
abbrev pub loop_of : HttpGateway → System
loop_of s = record { gateway = s.gateway; calls = calls_of s.tasks }

-- The place behind the call of a task.
abbrev pub behind : Task → ℕ → ℕ
behind (entering size generated payload) n = n
behind (handling generated payload) n = n
behind (getting e) n = n
behind (in_flight a k t0) n = suc n
behind (returning h) n = n

-- The place of a call among the calls.
abbrev pub place_of : ℕ → List Task → ℕ
place_of zero ts = 0
place_of (suc n) [] = 0
place_of (suc n) (t ∷ ts) = behind t (place_of n ts)

get-behind :
    (t : Task) (n : ℕ) (ks : List Call) → get_elem? (call_in t ++ ks) (behind t n) ≡ get_elem? ks n
get-behind (entering size generated payload) n ks = refl
get-behind (handling generated payload) n ks = refl
get-behind (getting e) n ks = refl
get-behind (in_flight a k t0) n ks = refl
get-behind (returning h) n ks = refl

remove-behind :
    (t : Task) (n : ℕ) (ks : List Call)
    → remove_at (behind t n) (call_in t ++ ks) ≡ call_in t ++ remove_at n ks
remove-behind (entering size generated payload) n ks = refl
remove-behind (handling generated payload) n ks = refl
remove-behind (getting e) n ks = refl
remove-behind (in_flight a k t0) n ks = refl
remove-behind (returning h) n ks = refl

some_inj : (t u : Task) → some t ≡ some u → t ≡ u
some_inj t u e = cc

pub get-calls_of :
    (i : ℕ) (ts : List Task) (a : Arguments) (k : Call) (t0 : ℕ)
    → get_elem? ts i ≡ some (in_flight a k t0)
    → get_elem? (calls_of ts) (place_of i ts) ≡ some k
get-calls_of i [] a k t0 e = cc
get-calls_of zero (t ∷ ts) a k t0 e = rw (some_inj t (in_flight a k t0) e) refl
get-calls_of (suc i) (t ∷ ts) a k t0 e =
    get-behind t (place_of i ts) (calls_of ts) ∙ get-calls_of i ts a k t0 e

pub calls_of-remove_in_flight :
    (i : ℕ) (ts : List Task) (a : Arguments) (k : Call) (t0 : ℕ)
    → get_elem? ts i ≡ some (in_flight a k t0)
    → calls_of (remove_at i ts) ≡ remove_at (place_of i ts) (calls_of ts)
calls_of-remove_in_flight i [] a k t0 e = cc
calls_of-remove_in_flight zero (t ∷ ts) a k t0 e = rw (some_inj t (in_flight a k t0) e) refl
calls_of-remove_in_flight (suc i) (t ∷ ts) a k t0 e =
    ap (λ ks. call_in t ++ ks) (calls_of-remove_in_flight i ts a k t0 e)
    ∙ sym (remove-behind t (place_of i ts) (calls_of ts))

-- A task that waits for no RPC has no call.
pub calls_of-remove :
    (i : ℕ) (ts : List Task) (t : Task)
    → get_elem? ts i ≡ some t
    → call_in t ≡ []
    → calls_of (remove_at i ts) ≡ calls_of ts
calls_of-remove i [] t e n = cc
calls_of-remove zero (u ∷ ts) t e n = rw (some_inj u t e, n) refl
calls_of-remove (suc i) (u ∷ ts) t e n = ap (λ ks. call_in u ++ ks) (calls_of-remove i ts t e n)
