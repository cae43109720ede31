-- ===== src/Model/RateLimit/Admission.antt =====
-- RateLimiter of model/rate_limit.py: what an admission says of the list of all the admissions that it
-- extends; the deque may forget what has aged out.
use evalstack.Prelude.{
  ℕ, ◌+◌, ◌≤◌, ◌<◌, ◌≡◌, refl, ◌⊎◌, inl, inr, Option, none, some, List, [], ◌∷◌, ◌++◌, length, ltb,
  All, keep, arith, Option-cases, Bool-cases, length-append, sum_of-append, All-append, sym, ap,
  ◌∙◌,
}
use mathlib.Core.List.{append_assoc}
use evalstack.Model.RateLimit.{window, RateLimits, Event, aged_out, prune, used_tokens, wait_needed}
use evalstack.Model.RateLimit.Window.{
  IsFresh, IsChronological, prune-IsChronological, request_wait-zero, token_wait-zero,
}
use evalstack.Model.RateLimit.Waiting.{IsValid}

abbrev pub IsOld : ℕ → List Event → Type 0
IsOld now = All (λ e. e.at + window ≤ now)

abbrev pub IsPast : ℕ → List Event → Type 0
IsPast now = All (λ e. e.at ≤ now)

-- The deque `es` holds the end of the history `h`, and what it dropped is old at `now`.
pub record Remembers (h : List Event) (now : ℕ) (es : List Event) : Type 0 where
  pub dropped : List Event
  pub split : h ≡ dropped ++ es
  pub old : IsOld now dropped
  pub chronological : IsChronological es
  pub past : IsPast now es

-- Admissions, and their tokens, in the window of the past minute.
abbrev pub recent : ℕ → List Event → List Event
recent now = keep (λ e. ltb now (e.at + window))

recent-old : (now : ℕ) (d es : List Event) → IsOld now d → recent now (d ++ es) ≡ recent now es
recent-old now [] es o = refl
recent-old now (x ∷ d) es o = ground (arith, recent-old now d es o.1)

recent-fresh : (now : ℕ) (es : List Event) → IsFresh now es → recent now es ≡ es
recent-fresh now [] f = refl
recent-fresh now (x ∷ es) f = ground (arith, recent-fresh now es f.1)

pub later-IsOld : (now later : ℕ) (es : List Event) → now ≤ later → IsOld now es → IsOld later es
later-IsOld now later [] h o = tt
later-IsOld now later (x ∷ es) h o = (omega arith, later-IsOld now later es h o.1)

pub later-IsPast : (now later : ℕ) (es : List Event) → now ≤ later → IsPast now es → IsPast later es
later-IsPast now later [] h o = tt
later-IsPast now later (x ∷ es) h o = (omega arith, later-IsPast now later es h o.1)

-- `prune` splits the deque.
pub record Pruned (now : ℕ) (es : List Event) : Type 0 where
  pub gone : List Event
  pub split : es ≡ gone ++ prune now es
  pub old : IsOld now gone

pruned : (now : ℕ) (es : List Event) → Pruned now es
unfolding prune
pruned now [] = record { gone = []; split = refl; old = tt }
pruned now (e ∷ es) = elim (Bool-cases (aged_out now e)) [
  | inl aged ↦
      let p = pruned now es in
      record {
        gone = e ∷ p.gone;
        split = rw aged (ap (◌∷◌ e) p.split);
        old = (ground arith, p.old);
      }
  | inr stays ↦ record { gone = []; split = rw stays; old = tt }
]

prune-IsPast : (now then_ : ℕ) (es : List Event) → IsPast then_ es → IsPast then_ (prune now es)
unfolding prune
prune-IsPast now then_ [] p = tt
prune-IsPast now then_ (e ∷ es) p = ground (arith, prune-IsPast now then_ es p.1)

pub Remembers-prune :
    {h : List Event} {now : ℕ} {es : List Event} (later : ℕ)
    → now ≤ later
    → Remembers h now es
    → Remembers h later (prune later es)
Remembers-prune {h} {now} {es} later le r =
    let p = pruned later es in
    record {
      dropped = r.dropped ++ p.gone;
      split =
          r.split
          ∙ ap (λ l. r.dropped ++ l) p.split
          ∙ sym (append_assoc r.dropped p.gone (prune later es));
      old =
          All-append (λ e. e.at + window ≤ later) r.dropped p.gone
            (later-IsOld now later r.dropped le r.old) p.old;
      chronological = prune-IsChronological later es r.chronological;
      past = prune-IsPast later later es (later-IsPast now later es le r.past);
    }

snoc-IsChronological :
    (now tokens : ℕ) (es : List Event)
    → IsChronological es
    → IsPast now es
    → IsChronological (es ++ record { at = now; tokens = tokens } ∷ [])
snoc-IsChronological now tokens [] c p = (tt, tt)
snoc-IsChronological now tokens (x ∷ es) c p = (
  All-append (λ e. x.at ≤ e.at) es (record { at = now; tokens = tokens } ∷ []) c.0 (p.0, tt),
  snoc-IsChronological now tokens es c.1 p.1,
)

snoc-IsFresh :
    (now tokens : ℕ) (es : List Event)
    → IsFresh now es
    → IsFresh now (es ++ record { at = now; tokens = tokens } ∷ [])
snoc-IsFresh now tokens es f =
    All-append (λ e. now < e.at + window) es (record { at = now; tokens = tokens } ∷ []) f
      (omega arith, tt)

abbrev pub Caps : Option ℕ → ℕ → Type 0
Caps none n = Unit
Caps (some cap) n = n ≤ cap

abbrev pub CapsOrOversize : Option ℕ → ℕ → ℕ → Type 0
CapsOrOversize none tokens n = Unit
CapsOrOversize (some cap) tokens n = (n ≤ cap) ⊎ (cap < tokens)

-- What an admission at `now` guarantees of the history that it extends.
pub record Admission (l : RateLimits) (h : List Event) (now tokens : ℕ) (es : List Event)
    : Type 0 where
  pub remembers : Remembers (h ++ record { at = now; tokens = tokens } ∷ []) now es
  pub requests_within :
      Caps l.requests_per_minute
        (length (recent now (h ++ record { at = now; tokens = tokens } ∷ [])))
  pub tokens_within :
      CapsOrOversize l.tokens_per_minute tokens
        (used_tokens (recent now (h ++ record { at = now; tokens = tokens } ∷ [])))

module _ (l : RateLimits) (h : List Event) (now tokens : ℕ) (es : List Event) (v : IsValid l)
    (r : Remembers h now es) (f : IsFresh now es) (z : wait_needed l es now tokens ≡ 0) where
  abbrev entry : List Event
  entry = record { at = now; tokens = tokens } ∷ []

  extended : h ++ entry ≡ r.dropped ++ (es ++ entry)
  extended = ap (λ x. x ++ entry) r.split ∙ append_assoc r.dropped es entry

  recent-extended : recent now (h ++ entry) ≡ es ++ entry
  recent-extended =
      ap (recent now) extended
      ∙ recent-old now r.dropped (es ++ entry) r.old
      ∙ recent-fresh now (es ++ entry) (snoc-IsFresh now tokens es f)

  requests-within : Caps l.requests_per_minute (length (es ++ entry))
  unfolding wait_needed
  requests-within = elim (Option-cases l.requests_per_minute) [
    | inl free ↦ rw free tt
    | inr (cap, e) ↦ rw e (
        omega (
          arith,
          length-append es entry,
          request_wait-zero cap now es (ground arith) f (ground arith),
        ))
  ]

  tokens-within : CapsOrOversize l.tokens_per_minute tokens (used_tokens (es ++ entry))
  unfolding wait_needed
  tokens-within = elim (Option-cases l.tokens_per_minute) [
    | inl free ↦ rw free tt
    | inr (cap, e) ↦ rw e (
        ground (
          arith,
          sum_of-append (λ (x : Event). x.tokens) es entry,
          token_wait-zero cap now tokens es f (ground arith),
        ))
  ]

  pub admit-Admission : Admission l h now tokens (es ++ entry)
  admit-Admission = record {
    remembers = record {
      dropped = r.dropped;
      split = extended;
      old = r.old;
      chronological = snoc-IsChronological now tokens es r.chronological r.past;
      past = All-append (λ e. e.at ≤ now) es entry r.past (omega arith, tt);
    };
    requests_within = rw recent-extended requests-within;
    tokens_within = rw recent-extended tokens-within;
  }
