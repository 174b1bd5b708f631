-- ===== src/Agent/Retry.antt =====
-- Retries of a workload's creation: agent/src/workload/retry_manager.rs.
use Prim.Native.Nat.{zero, suc, ◌+◌, ◌-◌, ◌*◌, ◌%◌, ◌^◌, ◌≤◌, ◌<◌, min}
use native.Mathlib.Nat.{pow-le-pow_right}
use native.Mathlib.Omega.{pow_step}
use ankaios.Prelude.{
  ℕ, ◌≡◌, refl, sym, ap, ◌∙◌, inl, inr, ◌⊎◌, length-append, Bool, true, false, List, [], ◌∷◌, ◌++◌,
  length, arith,
}

abbrev pub base_backoff_in_millis : ℕ
base_backoff_in_millis = 500

abbrev pub backoff_max_in_millis : ℕ
backoff_max_in_millis = 300000

-- `2u64.pow(counter) * BASE`, with the wrap-around of a release build.
unfoldable pub calc_backoff : ℕ → ℕ
calc_backoff counter =
    min (2 ^ counter % 2 ^ 64 * base_backoff_in_millis % 2 ^ 64) backoff_max_in_millis

-- A `watch` channel of a Boolean is its number in the list of the values last sent.
abbrev pub value_at : List Bool → ℕ → Bool
value_at [] k = false
value_at (b ∷ channels) zero = b
value_at (b ∷ channels) (suc k) = value_at channels k

abbrev pub send_false : List Bool → ℕ → List Bool
send_false [] k = []
send_false (b ∷ channels) zero = false ∷ channels
send_false (b ∷ channels) (suc k) = b ∷ send_false channels k

pub record RetryManager : Type 0 where
  pub channels : List Bool
  pub current_token_is_valid_sink : ℕ

pub record RetryToken : Type 0 where
  pub counter : ℕ
  pub valid : ℕ

-- The channel of a default sink holds false.
abbrev pub default_manager : RetryManager
default_manager = record { channels = false ∷ []; current_token_is_valid_sink = 0 }

unfoldable pub invalidate : RetryManager → RetryManager
invalidate m = record m { channels = send_false m.channels m.current_token_is_valid_sink }

unfoldable pub new_token : RetryManager → RetryManager × RetryToken
new_token m =
    let channels = (invalidate m).channels in
    (
      record { channels = channels ++ true ∷ []; current_token_is_valid_sink = length channels },
      record { counter = 0; valid = length channels },
    )

unfoldable pub is_valid : RetryManager → RetryToken → Bool
is_valid m t = value_at m.channels t.valid

-- The calls of the control loop.
pub data RetryCall : Type 0 where
  call_invalidate call_new_token : RetryCall

unfoldable pub run_calls : RetryManager → List RetryCall → RetryManager
run_calls m [] = m
run_calls m (call_invalidate ∷ calls) = run_calls (invalidate m) calls
run_calls m (call_new_token ∷ calls) = run_calls (new_token m).0 calls

-- Only the channel of the current sink can hold true, and the sink is one of the channels.
abbrev pub IsSingle : RetryManager → Type 0
IsSingle m =
    (m.current_token_is_valid_sink < length m.channels)
    × ((k : ℕ) → value_at m.channels k ≡ true → k ≡ m.current_token_is_valid_sink)

value_at-send_false :
    (channels : List Bool) (j k : ℕ)
    → value_at (send_false channels j) k ≡ true
    → (value_at channels k ≡ true) × (j ≡ k → ⊥)
value_at-send_false [] j k h = ground arith
value_at-send_false (b ∷ channels) zero zero h = ground arith
value_at-send_false (b ∷ channels) zero (suc k) h = (h, λ e. ground arith)
value_at-send_false (b ∷ channels) (suc j) zero h = (h, λ e. ground arith)
value_at-send_false (b ∷ channels) (suc j) (suc k) h =
    let (a, n) = value_at-send_false channels j k h in (a, λ e. n (omega arith))

length-send_false :
    (channels : List Bool) (j : ℕ) → length (send_false channels j) ≡ length channels
length-send_false [] j = refl
length-send_false (b ∷ channels) zero = refl
length-send_false (b ∷ channels) (suc j) = ap suc (length-send_false channels j)

value_at-append :
    (channels : List Bool) (k : ℕ)
    → value_at (channels ++ true ∷ []) k ≡ true
    → (value_at channels k ≡ true) ⊎ (k ≡ length channels)
value_at-append [] zero h = inr refl
value_at-append [] (suc k) h = ground arith
value_at-append (b ∷ channels) zero h = inl h
value_at-append (b ∷ channels) (suc k) h = ground (arith, value_at-append channels k h)

pub value_at-length :
    (channels : List Bool) → value_at (channels ++ true ∷ []) (length channels) ≡ true
value_at-length [] = refl
value_at-length (b ∷ channels) = value_at-length channels

invalidate-none :
    (m : RetryManager) (k : ℕ) → IsSingle m → value_at (invalidate m).channels k ≡ true → ⊥
unfolding invalidate
invalidate-none m k (b, u) h =
    let (a, n) = value_at-send_false m.channels m.current_token_is_valid_sink k h in n (sym (u k a))

new_token-current :
    (m : RetryManager) (k : ℕ)
    → IsSingle m
    → value_at (new_token m).0.channels k ≡ true
    → k ≡ (new_token m).1.valid
unfolding new_token
new_token-current m k s h =
    ground (arith, value_at-append (invalidate m).channels k h, invalidate-none m k s)

new_token-IsSingle : (m : RetryManager) → IsSingle m → IsSingle (new_token m).0
unfolding new_token
new_token-IsSingle m s = (
  omega (arith, length-append (invalidate m).channels (true ∷ [])),
  λ k h. new_token-current m k s h,
)

invalidate-IsSingle : (m : RetryManager) → IsSingle m → IsSingle (invalidate m)
unfolding invalidate
invalidate-IsSingle m (b, u) = (
  omega (arith, length-send_false m.channels m.current_token_is_valid_sink),
  λ k h. u k (value_at-send_false m.channels m.current_token_is_valid_sink k h).0,
)

pub calls-IsSingle :
    (m : RetryManager) (calls : List RetryCall) → IsSingle m → IsSingle (run_calls m calls)
unfolding run_calls
calls-IsSingle m [] s = s
calls-IsSingle m (call_invalidate ∷ calls) s =
    calls-IsSingle (invalidate m) calls (invalidate-IsSingle m s)
calls-IsSingle m (call_new_token ∷ calls) s =
    calls-IsSingle (new_token m).0 calls (new_token-IsSingle m s)

default_case : (k : ℕ) → value_at (false ∷ []) k ≡ true → k ≡ 0
default_case zero h = refl
default_case (suc k) h = ground arith

pub default-IsSingle : IsSingle default_manager
default-IsSingle = (omega arith, default_case)

-- A channel that holds false keeps it.
unfoldable pub IsDead : RetryManager → ℕ → Type 0
IsDead m k = (k < length m.channels) × (value_at m.channels k ≡ true → ⊥)

invalidate-IsDead : (m : RetryManager) (k : ℕ) → IsDead m k → IsDead (invalidate m) k
unfolding invalidate IsDead
invalidate-IsDead m k (b, d) = (
  omega (arith, length-send_false m.channels m.current_token_is_valid_sink),
  λ h. d (value_at-send_false m.channels m.current_token_is_valid_sink k h).0,
)

new_token-IsDead : (m : RetryManager) (k : ℕ) → IsDead (invalidate m) k → IsDead (new_token m).0 k
unfolding new_token IsDead
new_token-IsDead m k (b, d) = (
  omega (arith, length-append (invalidate m).channels (true ∷ [])),
  λ h. elim (value_at-append (invalidate m).channels k h) [ inl a ↦ d a | inr e ↦ omega arith ],
)

calls-IsDead :
    (m : RetryManager) (calls : List RetryCall) (k : ℕ) → IsDead m k → IsDead (run_calls m calls) k
unfolding run_calls
calls-IsDead m [] k d = d
calls-IsDead m (call_invalidate ∷ calls) k d =
    calls-IsDead (invalidate m) calls k (invalidate-IsDead m k d)
calls-IsDead m (call_new_token ∷ calls) k d =
    calls-IsDead (new_token m).0 calls k (new_token-IsDead m k (invalidate-IsDead m k d))

-- No channel of a manager holds true behind `invalidate`.
pub invalidate-IsDead_all :
    (m : RetryManager) (k : ℕ) → IsSingle m → k < length m.channels → IsDead (invalidate m) k
unfolding IsDead invalidate
invalidate-IsDead_all m k s b = (
  omega (arith, length-send_false m.channels m.current_token_is_valid_sink),
  λ h. invalidate-none m k s h,
)

pub later-IsDead :
    (m : RetryManager) (call : RetryCall) (calls : List RetryCall) (k : ℕ)
    → IsDead (invalidate m) k
    → IsDead (run_calls m (call ∷ calls)) k
unfolding run_calls
later-IsDead m call_invalidate calls k d = calls-IsDead (invalidate m) calls k d
later-IsDead m call_new_token calls k d =
    calls-IsDead (new_token m).0 calls k (new_token-IsDead m k d)

new_token-invalidated :
    (m : RetryManager) → IsSingle m → IsDead (invalidate (new_token m).0) (new_token m).1.valid
unfolding IsDead invalidate new_token
new_token-invalidated m s = (
  (invalidate-IsSingle (new_token m).0 (new_token-IsSingle m s)).0,
  λ h. invalidate-none (new_token m).0 (new_token m).1.valid (new_token-IsSingle m s) h,
)

new_token-value :
    (m : RetryManager) → value_at (new_token m).0.channels (new_token m).1.valid ≡ true
unfolding new_token
new_token-value m = value_at-length (invalidate m).channels

-- Whatever was called before, a new token is valid at first, and no longer once anything is called
-- after it.
new_token-is_valid :
    (before : List RetryCall) (call : RetryCall) (after : List RetryCall)
    → (is_valid
          (new_token (run_calls default_manager before)).0
          (new_token (run_calls default_manager before)).1
        ≡ true)
      × (is_valid
            (run_calls (new_token (run_calls default_manager before)).0 (call ∷ after))
            (new_token (run_calls default_manager before)).1
          ≡ false)
unfolding is_valid IsDead
new_token-is_valid before call after =
    let m = run_calls default_manager before in
    let s = calls-IsSingle default_manager before default-IsSingle in
    (
      new_token-value m,
      ground (
        arith,
        (later-IsDead (new_token m).0 call after (new_token m).1.valid
            (new_token-invalidated m s)).1,
      ),
    )

pow_lem : (c : ℕ) → c ≤ 55 → 2 ^ c ≤ 36028797018963968
pow_lem c h = pow-le-pow_right (omega arith) h

wrap_lem : (x : ℕ) → x ≤ 36028797018963968 → x % 2 ^ 64 * 500 % 2 ^ 64 ≡ x * 500
wrap_lem x h = omega arith

-- Up to 55 retries the backoff is 500 ms times a power of two, five minutes at most.
calc_backoff-min : (c : ℕ) → c ≤ 55 → calc_backoff c ≡ min (2 ^ c * 500) 300000
unfolding calc_backoff
calc_backoff-min c h = ap (λ (x : ℕ). min x 300000) (wrap_lem (2 ^ c) (pow_lem c h))

power_lem : (n q : ℕ) → 2 ^ n ≡ q * 4611686018427387904 → 2 ^ suc n ≡ (q + q) * 4611686018427387904
power_lem n q e = omega (arith, e, pow_step 2 n)

multiple_lem : (k : ℕ) → (q : ℕ) × (2 ^ (k + 62) ≡ q * 4611686018427387904)
multiple_lem zero = (1, refl)
multiple_lem (suc k) =
    let (q, e) = multiple_lem k in
    let s : suc k + 62 ≡ suc (k + 62) = omega arith in
    (q + q, ap (λ (x : ℕ). 2 ^ x) s ∙ power_lem (k + 62) q e)

zero_lem : (q : ℕ) → min (q * 4611686018427387904 % 2 ^ 64 * 500 % 2 ^ 64) 300000 ≡ 0
zero_lem q = omega arith

-- From the 62nd retry on, with the wrap-around of a release build, there is no backoff at all.
pub calc_backoff-overflow : (c : ℕ) → 62 ≤ c → calc_backoff c ≡ 0
unfolding calc_backoff
calc_backoff-overflow c h =
    let (q, e) = multiple_lem (c - 62) in
    let d : c ≡ c - 62 + 62 = omega (arith, h) in
    ap (λ (x : ℕ). min (x % 2 ^ 64 * 500 % 2 ^ 64) 300000) (ap (λ (x : ℕ). 2 ^ x) d ∙ e)
    ∙ zero_lem q
