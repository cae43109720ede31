-- ===== src/Model/Chat/Retries.antt =====
-- `_post_with_retries` of model/chat_completions.py: when it stops, and what it does on the way.
use evalstack.Prelude.{
  ℕ, zero, suc, ◌+◌, ◌≤◌, ◌<◌, ◌≡◌, ◌⊎◌, refl, ap, ◌∙◌, sym, subst, String, Bool, true, false,
  Option, none, some, List, [], ◌∷◌, ◌++◌, arith, if◌then◌else◌, inl, inr, ltb, All, All-append,
  any, ◌==◌, Bool-cases, Option-cases, str_eq,
}
use mathlib.Core.List.{append_assoc}
use evalstack.Model.{ModelError, transient}
use evalstack.Model.Chat.{
  Provider, Action, post, learn, sleep, HttpResult, Posted, failed, Verdict, ends, again, judge,
  learned, paced, attempts, post_with_retries, backoff_for, wait_or, before, max_retry_after,
  too_long, retry_after, responded, unreachable, retryable_status, non_zero, http_error,
}

-- What an attempt that is the last one comes to.
abbrev pub final : Verdict → Posted
final (ends x) = x
final (again e wait) = failed e

abbrev pub IsAgain : Verdict → Type 0
IsAgain (ends x) = ⊥
IsAgain (again e wait) = Unit

abbrev pub IsEnd : Verdict → Type 0
IsEnd (ends x) = Unit
IsEnd (again e wait) = ⊥

abbrev wait_after : Verdict → ℕ → List Action
wait_after (ends x) d = []
wait_after (again e wait) d = sleep (wait_or wait d) ∷ []

module _ (v : Provider) (limited : Bool) (http : ℕ → HttpResult) where
  abbrev pub verdict : ℕ → Verdict
  verdict k = judge v (http k)

  abbrev pub loop : ℕ → ℕ → List Action × Posted
  loop left k = attempts v limited http left k

  -- One attempt: it is paced, posts, and heeds the limit that the provider reports.
  abbrev pub attempt : ℕ → List Action
  attempt k = paced limited ++ post ∷ learned limited (http k)

  -- `more` attempts from `k` on, each followed by its sleep.
  abbrev pub retries : ℕ → ℕ → List Action
  retries k zero = []
  retries k (suc more) =
      (attempt k ++ wait_after (verdict k) (backoff_for k)) ++ retries (k + 1) more

  pub record Stops (max_retries first : ℕ) (out : List Action × Posted) : Type 0 where
    -- the number of retries made
    pub retried : ℕ
    pub within : retried ≤ max_retries
    pub retryable : (j : ℕ) → j < retried → IsAgain (verdict (first + j))
    pub stopped : IsEnd (verdict (first + retried)) ⊎ (retried ≡ max_retries)
    pub result : out.1 ≡ final (verdict (first + retried))
    pub actions : out.0 ≡ retries first retried ++ attempt (first + retried)

  shift : (k r : ℕ) → k + suc r ≡ k + 1 + r
  shift k r = omega arith

  +_zero : (n : ℕ) → n + 0 ≡ n
  +_zero n = omega arith

  -- The loop ends with this attempt.
  Stops-now :
      (left k : ℕ) → IsEnd (verdict k) ⊎ (0 ≡ left) → Stops left k (attempt k, final (verdict k))
  Stops-now left k last = record {
    retried = 0;
    within = omega arith;
    retryable = λ j h. absurd (omega arith);
    stopped = rw (+_zero k) last;
    result = rw (+_zero k) refl;
    actions = rw (+_zero k) refl;
  }

  retryable_from :
      (k r : ℕ)
      → IsAgain (verdict k)
      → ((j : ℕ) → j < r → IsAgain (verdict (k + 1 + j)))
      → (j : ℕ) → j < suc r
      → IsAgain (verdict (k + j))
  retryable_from k r first rest zero h = rw (+_zero k) first
  retryable_from k r first rest (suc j) h = rw (shift k j) (rest j (omega arith))

  -- The loop goes on after this attempt.
  Stops-later :
      (left k : ℕ) (rest : List Action × Posted)
      → IsAgain (verdict k)
      → Stops left (k + 1) rest
      → Stops (suc left) k (before (attempt k ++ wait_after (verdict k) (backoff_for k)) rest)
  Stops-later left k rest first s = record {
    retried = suc s.retried;
    within = omega (arith, s.within);
    retryable = retryable_from k s.retried first s.retryable;
    stopped = later s.stopped;
    result = rw (shift k s.retried) s.result;
    actions = rw (shift k s.retried) (
        ap (λ l. (attempt k ++ wait_after (verdict k) (backoff_for k)) ++ l) s.actions
        ∙ sym (
            append_assoc (attempt k ++ wait_after (verdict k) (backoff_for k))
              (retries (k + 1) s.retried) (attempt (k + 1 + s.retried))));
  }
    where
      later :
          IsEnd (verdict (k + 1 + s.retried)) ⊎ (s.retried ≡ left)
          → IsEnd (verdict (k + suc s.retried)) ⊎ (suc s.retried ≡ suc left)
      later (inl e) = inl (rw (shift k s.retried) e)
      later (inr e) = inr (ap suc e)

  last_attempt : (k : ℕ) (x : Verdict) → verdict k ≡ x → Stops 0 k (loop 0 k)
  unfolding attempts
  last_attempt k (ends x) e =
      subst (λ y. Stops 0 k y) (rw (e, attempts) refl) (Stops-now 0 k (inr refl))
  last_attempt k (again f w) e =
      subst (λ y. Stops 0 k y) (rw (e, attempts) refl) (Stops-now 0 k (inr refl))

  one_more :
      (left k : ℕ) (x : Verdict)
      → verdict k ≡ x
      → Stops left (k + 1) (loop left (k + 1))
      → Stops (suc left) k (loop (suc left) k)
  unfolding attempts
  one_more left k (ends x) e rest =
      subst (λ y. Stops (suc left) k y) (rw (e, attempts) refl)
        (Stops-now (suc left) k (inl (rw e tt)))
  one_more left k (again f w) e rest =
      subst (λ y. Stops (suc left) k y) (rw (e, attempts) refl)
        (Stops-later left k (loop left (k + 1)) (rw e tt) rest)

  loop-Stops : (left k : ℕ) → Stops left k (loop left k)
  loop-Stops zero k = last_attempt k (verdict k) refl
  loop-Stops (suc left) k = one_more left k (verdict k) refl (loop-Stops left (k + 1))

  -- The client makes the first post and `retried` more: each of the attempts before the last came to
  -- a fault that is retried, and the last came to an end or used up the retries; the outcome is what
  -- the last one comes to. Every attempt is paced if there is a limiter, and between two attempts
  -- there is one sleep, of the wait that the provider asks for or of the backoff.
  pub post_with_retries-Stops :
      (max_retries : ℕ) → Stops max_retries 0 (post_with_retries v limited http max_retries)
  post_with_retries-Stops max_retries = loop-Stops max_retries 0

-- No sleep is longer than the longest wait that is worth honouring.
abbrev pub IsShort : Action → Type 0
IsShort (sleep ms) = ms ≤ max_retry_after
IsShort _ = Unit

abbrev IsHonoured : Verdict → Type 0
IsHonoured (again e (some w)) = w ≤ max_retry_after
IsHonoured _ = Unit

non_zero-short :
    (e : ModelError) (o : Option ℕ) → too_long o ≡ false → IsHonoured (again e (non_zero o))
non_zero-short e none h = tt
non_zero-short e (some zero) h = tt
non_zero-short e (some (suc w)) h = ground arith

module _ (v : Provider) where
  honoured : (x : HttpResult) → IsHonoured (judge v x)
  unfolding judge
  honoured (unreachable text) = tt
  honoured (responded r) = elim (Bool-cases (ltb r.status 400)) [
    | inl fine ↦ rw fine tt
    | inr bad ↦ rw bad (elim (Bool-cases (any (λ s. s == r.status) retryable_status)) [
      | inl retry ↦ rw retry (elim (Bool-cases (too_long (retry_after v r))) [
        | inl long ↦ rw long tt
        | inr short ↦ rw short (non_zero-short (transient (http_error v r)) (retry_after v r) short)
      ])
      | inr fatal ↦ rw fatal tt
    ])
  ]

  backoff_short : (k : ℕ) → backoff_for k ≤ max_retry_after
  unfolding backoff_for
  backoff_short k = omega arith

  wait-IsShort : (x : Verdict) (k : ℕ) → IsHonoured x → All IsShort (wait_after x (backoff_for k))
  wait-IsShort (ends x) k h = tt
  wait-IsShort (again e none) k h = (backoff_short k, tt)
  wait-IsShort (again e (some w)) k h = (h, tt)

  learned-IsShort : (limited : Bool) (x : HttpResult) → All IsShort (learned limited x)
  unfolding learned
  learned-IsShort false x = tt
  learned-IsShort true (unreachable text) = tt
  learned-IsShort true (responded r) = elim (Option-cases r.limit_tokens) [
    | inl e ↦ rw (e, learned) tt
    | inr (raw, e) ↦ rw (e, learned) (learns (str_eq raw "") raw)
  ]
    where
      learns : (b : Bool) (raw : String) → All IsShort (if b then [] else learn raw ∷ [])
      learns true raw = tt
      learns false raw = (tt, tt)

  attempt-IsShort :
      (limited : Bool) (http : ℕ → HttpResult) (k : ℕ) → All IsShort (attempt v limited http k)
  attempt-IsShort true http k = (tt, (tt, learned-IsShort true (http k)))
  attempt-IsShort false http k = (tt, learned-IsShort false (http k))

  module _ (limited : Bool) (http : ℕ → HttpResult) where
    retries-IsShort : (k more : ℕ) → All IsShort (retries v limited http k more)
    retries-IsShort k zero = tt
    retries-IsShort k (suc more) =
        All-append IsShort
          (attempt v limited http k ++ wait_after (judge v (http k)) (backoff_for k)) _
          (All-append IsShort (attempt v limited http k) _ (attempt-IsShort limited http k)
            (wait-IsShort (judge v (http k)) k (honoured (http k))))
          (retries-IsShort (k + 1) more)

    -- Whatever waits the provider asks for, the client never sleeps for more than two minutes.
    pub sleeps_bounded :
        (max_retries : ℕ) → All IsShort (post_with_retries v limited http max_retries).0
    sleeps_bounded max_retries =
        let s = post_with_retries-Stops v limited http max_retries in
        subst (All IsShort) (sym s.actions) (
          All-append IsShort (retries v limited http 0 s.retried) _ (retries-IsShort 0 s.retried)
            (attempt-IsShort limited http (0 + s.retried)))
