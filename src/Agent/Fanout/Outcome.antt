-- ===== src/Agent/Fanout/Outcome.antt =====
-- When a fan-out succeeds, and when it is marked partial.
use d9c.Base.{
  ◌≡◌, ◌≢◌, refl, ap, ◌↔◌, ◌⊎◌, inl, inr, Bool, true, String, none, some, List, [], ◌∷◌, ◌≤◌, ◌<◌,
  any, length, ltb, arith, List-cases, Bool-cases, Option-cases, All, Any,
}
use d9c.Agent.Error.{Error}
use d9c.Agent.OpResult.{OpResult, Ending, returned, errored, panicked}
use d9c.Agent.Fanout.{HostResult, failed_hosts, fanout_result}

-- A host that failed, and one that answered.
abbrev pub HasFailed : HostResult → Type 0
HasFailed r = (e : Error) × (r.failure ≡ some e)

abbrev pub HasAnswered : HostResult → Type 0
HasAnswered r = r.failure ≡ none

-- What an ending says of the hosts.
abbrev pub Tells : List HostResult → Ending (OpResult (List HostResult)) → Type 0
Tells results (returned res) =
    (res.content ≡ results)
    × ((res.partial ≡ true) ↔ Any HasFailed results)
    × ((res.truncated ≡ true) ↔ Any (λ r. r.truncated ≡ true) results)
    × ((results ≡ []) ⊎ Any HasAnswered results)
Tells results (errored f) = All HasFailed results × (results ≢ [])
Tells results (panicked what) = ⊥

failed_hosts_le : (rs : List HostResult) → length (failed_hosts rs) ≤ length rs
unfolding failed_hosts
failed_hosts_le [] = ground arith
failed_hosts_le (r ∷ rest) = ground (arith, failed_hosts_le rest)

failed_hosts-Any : (rs : List HostResult) → (1 ≤ length (failed_hosts rs)) ↔ Any HasFailed rs
unfolding failed_hosts
failed_hosts-Any [] = (λ h. absurd (omega arith), λ i. elim i [ ])
failed_hosts-Any (r ∷ rest) = elim (Option-cases r.failure) [
  | inr (e, f) ↦ rw f (λ h. inl (e, refl), λ i. omega arith)
  | inl n ↦ rw n (
    λ h. inr ((failed_hosts-Any rest).0 h),
    λ i. elim i [ inl (e, f) ↦ absurd (ground (arith, f)) | inr j ↦ (failed_hosts-Any rest).1 j ],
  )
]

some_answered : (rs : List HostResult) → length (failed_hosts rs) < length rs → Any HasAnswered rs
unfolding failed_hosts
some_answered [] h = absurd (omega arith)
some_answered (r ∷ rest) h = elim (Option-cases r.failure) [
  | inl n ↦ inl n
  | inr (e, f) ↦ inr (some_answered rest (omega (arith, rw f at h)))
]

all_failed : (rs : List HostResult) → length rs ≤ length (failed_hosts rs) → All HasFailed rs
unfolding failed_hosts
all_failed [] h = tt
all_failed (r ∷ rest) h = elim (Option-cases r.failure) [
  | inl n ↦ absurd (omega (arith, failed_hosts_le rest, rw n at h))
  | inr (e, f) ↦ ((e, f), all_failed rest (omega (arith, rw f at h)))
]

any-Any : {A : Type 0} (p : A → Bool) (xs : List A) → (any p xs ≡ true) ↔ Any (λ x. p x ≡ true) xs
any-Any p [] = (λ h. absurd (ground (arith, h)), λ i. elim i [ ])
any-Any p (x ∷ xs) = elim (Bool-cases (p x)) [
  | inl t ↦ rw t (λ h. inl refl, λ i. refl)
  | inr f ↦ rw f (
    λ h. inr ((any-Any p xs).0 h),
    λ i. elim i [ inl t ↦ absurd (ground (arith, t)) | inr j ↦ (any-Any p xs).1 j ],
  )
]

fanout_complete :
    (op : String) (results : List HostResult)
    → failed_hosts results ≡ []
    → Tells results (fanout_result op results)
unfolding fanout_result
fanout_complete op results e =
    let failures = failed_hosts-Any results in
    let cuts = any-Any (λ r. r.truncated) results in
    let whole : (results ≡ []) ⊎ Any HasAnswered results = elim (List-cases results) [
      | inl n ↦ inl n
      | inr (r, more, n) ↦ inr (some_answered results (ground (arith, ap length e, ap length n)))
    ] in
    let none_failed : Any HasFailed results → ⊥ = λ i. ground (arith, failures.1 i, ap length e) in
    elim (Bool-cases (any (λ r. r.truncated) results)) [
      | inl t ↦
          rw (e, t, Tells, fanout_result)
            (
              refl,
              (λ h. absurd (ground arith), λ i. absurd (none_failed i)),
              (λ h. cuts.0 t, λ i. refl),
              whole,
            )
      | inr f ↦
          rw (e, f, Tells, fanout_result)
            (
              refl,
              (λ h. absurd (ground arith), λ i. absurd (none_failed i)),
              (λ h. absurd (ground arith), λ i. absurd (ground (arith, f, cuts.1 i))),
              whole,
            )
    ]

fanout_failed :
    (op : String) (results : List HostResult) (host : String) (first : Error)
    (rest : List (String × Error))
    → failed_hosts results ≡ (host, first) ∷ rest
    → Tells results (fanout_result op results)
unfolding fanout_result
fanout_failed op results host first rest e =
    let failures = failed_hosts-Any results in
    let some_failed : 1 ≤ length (failed_hosts results) = ground (arith, ap length e) in
    elim (Bool-cases (ltb (length (failed_hosts results)) (length results))) [
      | inl t ↦
          let answered = some_answered results (ground (arith, t)) in
          let failing = failures.0 some_failed in
          rw (e, t, Tells, fanout_result)
            (refl, (λ h. failing, λ i. refl), any-Any (λ r. r.truncated) results, inr answered)
      | inr n ↦
          let every = all_failed results (ground (arith, n)) in
          let filled : results ≢ [] =
            λ z. ground (arith, ap length z, some_failed, failed_hosts_le results) in
          rw (e, n, Tells, fanout_result) (every, filled)
    ]

-- What a fan-out returns is the list of all hosts, marked partial exactly where some host failed and
-- truncated exactly where some host's data was cut, and some host answered unless there is none. It
-- is an error only where every host failed and there is one, and it does not panic.
pub fanout_result_lem :
    (op : String) (results : List HostResult) → Tells results (fanout_result op results)
fanout_result_lem op results = elim (List-cases (failed_hosts results)) [
  | inl e ↦ fanout_complete op results e
  | inr ((host, first), rest, e) ↦ fanout_failed op results host first rest e
]
