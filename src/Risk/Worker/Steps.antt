-- ===== src/Risk/Worker/Steps.antt =====
-- The steps of the worker of packages/services/src/risk-worker.ts: what a step that hands nothing to
-- the wallet returns, and what a step that hands a certificate over has checked.
use aurka.Prelude.{
  ◌≡◌, refl, sym, ◌∙◌, subst, ◌⊎◌, inl, inr, Bool, true, false, not, ◌||◌, ◌∷◌, Result, ok, err,
  if◌then◌else◌,
}
use aurka.Risk.{RiskCertificate}
use aurka.Risk.Worker.{
  Workflow, WorkerError, Worker, M, resume_with, ◌>>=◌, return_value, answer, fail_if,
  save_workflow, hand_over,
}

abbrev pub Returns : {A : Type 0} → (A → Type 0) → Result WorkerError A → Type 0
Returns P (ok a) = P a
Returns P (err e) = Unit {0}

-- The step hands nothing to the wallet, and what it returns satisfies P.
pub record Yields {A : Type 0} (m : M A) (P : A → Type 0) : Type 0 where
  pub quiet : (worker : Worker) → (m worker).0.handed_over ≡ worker.handed_over
  pub returned : (worker : Worker) → Returns P (m worker).1

-- From a worker a result hands over nothing, or one certificate, which satisfies P.
abbrev pub Gives :
    {A : Type 0} → Worker → (RiskCertificate → Type 0) → Worker × Result WorkerError A → Type 0
Gives worker P result =
    (result.0.handed_over ≡ worker.handed_over)
    ⊎ ((c : RiskCertificate) × (result.0.handed_over ≡ c ∷ worker.handed_over) × P c)

-- The step hands over nothing, or one certificate, which satisfies P.
pub record HandsOver {A : Type 0} (m : M A) (P : RiskCertificate → Type 0) : Type 0 where
  pub at_most_one : (worker : Worker) → Gives worker P (m worker)

pub answer_yields : {A : Type 0} (r : Result WorkerError A) → Yields (answer r) (λ a. r ≡ ok a)
answer_yields (ok a) = record { quiet = λ w. refl; returned = λ w. refl }
answer_yields (err e) = record { quiet = λ w. refl; returned = λ w. tt }

pub return_yields : {A : Type 0} (a : A) {P : A → Type 0} → P a → Yields (return_value a) P
return_yields a h = record { quiet = λ w. refl; returned = λ w. h }

pub fail_if_yields : (c : Bool) (e : WorkerError) → Yields (fail_if c e) (λ done. c ≡ false)
fail_if_yields true e = record { quiet = λ w. refl; returned = λ w. tt }
fail_if_yields false e = record { quiet = λ w. refl; returned = λ w. refl }

pub save_workflow_yields : (w : Workflow) → Yields (save_workflow w) (λ done. Unit {0})
unfolding save_workflow
save_workflow_yields w = record { quiet = λ w. refl; returned = λ w. tt }

resume_with_quiet :
    {A B : Type 0} (next : A → M B) {P : A → Type 0} {Q : B → Type 0}
    (p : Worker × Result WorkerError A)
    → Returns P p.1
    → ((a : A) → P a → Yields (next a) Q)
    → (resume_with next p).0.handed_over ≡ p.0.handed_over
resume_with_quiet next (w, ok a) h k = (k a h).quiet w
resume_with_quiet next (w, err e) h k = refl

resume_with_returned :
    {A B : Type 0} (next : A → M B) {P : A → Type 0} {Q : B → Type 0}
    (p : Worker × Result WorkerError A)
    → Returns P p.1
    → ((a : A) → P a → Yields (next a) Q)
    → Returns Q (resume_with next p).1
resume_with_returned next (w, ok a) h k = (k a h).returned w
resume_with_returned next (w, err e) h k = tt

pub >>=_yields :
    {A B : Type 0} {call : M A} {next : A → M B} {P : A → Type 0} {Q : B → Type 0}
    → Yields call P
    → ((a : A) → P a → Yields (next a) Q)
    → Yields (call >>= next) Q
unfolding ◌>>=◌
>>=_yields {call = call} {next = next} h k = record {
  quiet = λ w. resume_with_quiet next (call w) (h.returned w) k ∙ h.quiet w;
  returned = λ w. resume_with_returned next (call w) (h.returned w) k;
}

resume_with_hands :
    {A B : Type 0} (next : A → M B) {P : A → Type 0} {Q : RiskCertificate → Type 0}
    (p : Worker × Result WorkerError A)
    → Returns P p.1
    → ((a : A) → P a → HandsOver (next a) Q)
    → Gives p.0 Q (resume_with next p)
resume_with_hands next (w, ok a) h k = (k a h).at_most_one w
resume_with_hands next (w, err e) h k = inl refl

pub >>=_hands :
    {A B : Type 0} {call : M A} {next : A → M B} {P : A → Type 0} {Q : RiskCertificate → Type 0}
    → Yields call P
    → ((a : A) → P a → HandsOver (next a) Q)
    → HandsOver (call >>= next) Q
unfolding ◌>>=◌
>>=_hands {call = call} {next = next} {Q = Q} h k = record {
  at_most_one = λ w.
      subst
        (λ before.
          ((resume_with next (call w)).0.handed_over ≡ before)
          ⊎ ((c : RiskCertificate) × ((resume_with next (call w)).0.handed_over ≡ c ∷ before)
              × Q c))
        (h.quiet w) (resume_with_hands next (call w) (h.returned w) k);
}

-- The same, where what follows depends on the worker.
pub answer-Gives :
    {A B : Type 0} (r : Result WorkerError A) (next : A → M B) {Q : RiskCertificate → Type 0}
    (worker : Worker)
    → ((a : A) → r ≡ ok a → Gives worker Q (next a worker))
    → Gives worker Q ((answer r >>= next) worker)
unfolding ◌>>=◌
answer-Gives (ok a) next worker h = h a refl
answer-Gives (err e) next worker h = inl refl

pub yields_hands :
    {A : Type 0} {m : M A} {P : A → Type 0} {Q : RiskCertificate → Type 0}
    → Yields m P
    → HandsOver m Q
yields_hands h = record { at_most_one = λ w. inl (h.quiet w) }

-- The calldata of one certificate, and then nothing more.
pub hand_over_hands :
    {B : Type 0} (c : RiskCertificate) {next : M B} {P : B → Type 0} {Q : RiskCertificate → Type 0}
    → Q c
    → Yields next P
    → HandsOver (hand_over c >>= λ done. next) Q
unfolding hand_over ◌>>=◌
hand_over_hands c h k = record { at_most_one = λ w. inr (c, k.quiet _, h) }

pub if_yields :
    {A : Type 0} (c : Bool) {m k : M A} {P : A → Type 0}
    → (c ≡ true → Yields m P)
    → (c ≡ false → Yields k P)
    → Yields (if c then m else k) P
if_yields true h j = h refl
if_yields false h j = j refl

pub Gives-weaken :
    {A : Type 0} (worker : Worker) (result : Worker × Result WorkerError A)
    {P Q : RiskCertificate → Type 0}
    → Gives worker P result
    → ((c : RiskCertificate) → P c → Q c)
    → Gives worker Q result
Gives-weaken worker result (inl same) k = inl same
Gives-weaken worker result (inr (c, one, p)) k = inr (c, one, k c p)

pub HandsOver_weaken :
    {A : Type 0} {m : M A} {P Q : RiskCertificate → Type 0}
    → HandsOver m P
    → ((c : RiskCertificate) → P c → Q c)
    → HandsOver m Q
HandsOver_weaken {m = m} h k = record {
  at_most_one = λ w. Gives-weaken w (m w) (h.at_most_one w) k;
}

Returns_weaken :
    {A : Type 0} {P Q : A → Type 0} (r : Result WorkerError A)
    → Returns P r
    → ((a : A) → P a → Q a)
    → Returns Q r
Returns_weaken (ok a) h k = k a h
Returns_weaken (err e) h k = tt

pub Yields_weaken :
    {A : Type 0} {m : M A} {P Q : A → Type 0} → Yields m P → ((a : A) → P a → Q a) → Yields m Q
Yields_weaken {m = m} h k = record {
  quiet = h.quiet;
  returned = λ w. Returns_weaken (m w).1 (h.returned w) k;
}

pub nor-false : (a b : Bool) → (a || not b) ≡ false → b ≡ true
nor-false false true e = refl
nor-false false false e = sym e
nor-false true b e = cc
