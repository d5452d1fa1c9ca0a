-- ===== src/Client/Auth/Flight/Phase.antt =====
-- crates/tossinvest/src/auth.rs, `TokenManager`: the phases of a burst of callers of `token`.
use mathlib.Core.Path.{subst}
use package.tossinvest_rust.Common.{String, ℕ, ◌≡◌, ◌≢◌, sym, ap, ◌∙◌, none, some, some_injective}
use package.tossinvest_rust.Common.Table.{update, update_ne, update_all}
use package.tossinvest_rust.Common.Result.{Result, ok}
use package.tossinvest_rust.Client.Error.{TransportError}
use package.tossinvest_rust.Client.Transport.{RawResponse}
use package.tossinvest_rust.Client.Auth.{fresh_token, on_token_answer}
use package.tossinvest_rust.Client.Auth.Flight.{
  Caller, calling, waiting, holding, sending, dropped, returned, Manager, State, fresh, Step,
  checks, acquires, rechecks, receives,
}

-- A task that has not asked for a token, and one that has none but the token t.
abbrev pub IsEarly : Caller → Type 0
IsEarly calling = Unit
IsEarly waiting = Unit
IsEarly holding = Unit
IsEarly _ = ⊥

abbrev pub IsServed : String → Caller → Type 0
IsServed t (returned r) = r ≡ ok t
IsServed t sending = ⊥
IsServed t _ = Unit

pub early-IsServed : (t : String) (c : Caller) → IsEarly c → IsServed t c
early-IsServed t calling h = tt
early-IsServed t waiting h = tt
early-IsServed t holding h = tt
early-IsServed t sending h = absurd h
early-IsServed t dropped h = absurd h
early-IsServed t (returned r) h = absurd h

abbrev pub IsIdle : Caller → Type 0
IsIdle sending = ⊥
IsIdle _ = Unit

-- Only a task that is sending is `sending`.
pub apart : {c : Caller} (d : Caller) → c ≡ d → IsIdle d → ¬ (c ≡ sending)
apart d e idle e' = subst IsIdle (sym e ∙ e') idle

module _ (T : Manager) where
  -- An answer that is a token, fresh at the time.
  abbrev pub IsGood : State T → Result (RawResponse T.http) TransportError → Type 0
  IsGood s answer =
      (cache : T.store.Cache) × (t : String) × (on_token_answer T.store T.codec s.cache s.now answer
        ≡ (cache, ok t))
      × (fresh_token T.store cache T.skew s.now ≡ some t)

  -- The tasks are not dropped, no token is invalidated, none expires, and the server grants tokens.
  abbrev pub IsSmooth : {s : State T} {i : ℕ} {t : State T} → Step T s i t → Type 0
  IsSmooth (checks e) = Unit
  IsSmooth (acquires e free) = Unit
  IsSmooth (rechecks e) = Unit
  IsSmooth {s} (receives answer e) = IsGood s answer
  IsSmooth _ = ⊥

  pub data Smooth (s : State T) : State T → Type 0 where
    begin : Smooth s s
    go : {t u : State T} (i : ℕ) → Smooth s t → (m : Step T t i u) → IsSmooth m → Smooth s u

  -- Before the request, while it is in flight, and after its answer.
  pub record Before (s : State T) : Type 0 where
    pub unasked : s.requests ≡ 0
    pub stale : fresh T s ≡ none
    pub early : (j : ℕ) → IsEarly (s.callers j)

  pub record During (s : State T) : Type 0 where
    pub who : ℕ
    pub asked : s.requests ≡ 1
    pub stale : fresh T s ≡ none
    pub asks : s.callers who ≡ sending
    pub early : (j : ℕ) → who ≢ j → IsEarly (s.callers j)

  pub record After (s : State T) : Type 0 where
    pub token : String
    pub asked : s.requests ≡ 1
    pub known : fresh T s ≡ some token
    pub served : (j : ℕ) → IsServed token (s.callers j)

  pub data Phase (s : State T) : Type 0 where
    before : Before s → Phase s
    during : During s → Phase s
    after : After s → Phase s

  -- A task moves from one early point to another.
  pub moves-early :
      (s t : State T) (i : ℕ) (c : Caller)
      → ¬ (s.callers i ≡ sending)
      → IsEarly c
      → fresh T t ≡ fresh T s
      → t.requests ≡ s.requests
      → t.callers ≡ update s.callers i c
      → Phase s
      → Phase t
  moves-early s t i c quiet own same count table (before b) = before (record {
    unasked = count ∙ b.unasked;
    stale = same ∙ b.stale;
    early = rw table (update_all (λ j q. IsEarly q) s.callers i c (λ j ne. b.early j) own);
  })
  moves-early s t i c quiet own same count table (during d) = during (record {
    who = d.who;
    asked = count ∙ d.asked;
    stale = same ∙ d.stale;
    asks =
        ap (λ f. f d.who) table
        ∙ update_ne s.callers i d.who c (λ e. quiet (ap s.callers e ∙ d.asks))
        ∙ d.asks;
    early =
        rw table
          (update_all (λ j q. d.who ≢ j → IsEarly q) s.callers i c (λ j ne. d.early j) (λ ne. own));
  })
  moves-early s t i c quiet own same count table (after a) = after (record {
    token = a.token;
    asked = count ∙ a.asked;
    known = same ∙ a.known;
    served = rw table (
        update_all (λ j q. IsServed a.token q) s.callers i c (λ j ne. a.served j)
          (early-IsServed a.token c own));
  })

  -- A task that finds the token returns it.
  pub finds-After :
      (s t : State T) (i : ℕ) (token : String) (a : After s)
      → fresh T s ≡ some token
      → fresh T t ≡ fresh T s
      → t.requests ≡ s.requests
      → t.callers ≡ update s.callers i (returned (ok token))
      → Phase t
  finds-After s t i token a found same count table = after (record {
    token = a.token;
    asked = count ∙ a.asked;
    known = same ∙ a.known;
    served = rw table (
        update_all (λ j q. IsServed a.token q) s.callers i (returned (ok token))
          (λ j ne. a.served j) (ap ok (some_injective (sym found ∙ a.known))));
  })
