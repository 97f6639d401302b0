-- ===== src/Async/History/Lists.antt =====
-- Longer logs.
use lo_ra_ham_daemon.Base.{List, [], ap, refl, some, ◌++◌, ◌∷◌, ◌≡◌}
use lo_ra_ham_daemon.TxJob.{Job, JobResult}
use lo_ra_ham_daemon.Async.History.{newest_of}
use lo_ra_ham_daemon.Async.History.{
  Fate, handed, discarded, jobs_of, with_fate, executed, all_discarded,
}

pub jobs_of-append : (xs ys : List (Fate × Job)) → jobs_of (xs ++ ys) ≡ jobs_of xs ++ jobs_of ys
jobs_of-append [] ys = refl
jobs_of-append ((fate, job) ∷ xs) ys = ap (λ l. job ∷ l) (jobs_of-append xs ys)

pub with_fate-append :
    (fate : Fate) (xs ys : List (Fate × Job))
    → with_fate fate (xs ++ ys) ≡ with_fate fate xs ++ with_fate fate ys
with_fate-append fate [] ys = refl
with_fate-append handed ((handed, job) ∷ xs) ys = ap (λ l. job ∷ l) (with_fate-append handed xs ys)
with_fate-append handed ((discarded, job) ∷ xs) ys = with_fate-append handed xs ys
with_fate-append discarded ((handed, job) ∷ xs) ys = with_fate-append discarded xs ys
with_fate-append discarded ((discarded, job) ∷ xs) ys =
    ap (λ l. job ∷ l) (with_fate-append discarded xs ys)

pub executed-append :
    (xs ys : List (Job × JobResult)) → executed (xs ++ ys) ≡ executed xs ++ executed ys
executed-append [] ys = refl
executed-append ((job, r) ∷ xs) ys = ap (λ l. job ∷ l) (executed-append xs ys)

pub jobs_of-all_discarded : (jobs : List Job) → jobs_of (all_discarded jobs) ≡ jobs
jobs_of-all_discarded [] = refl
jobs_of-all_discarded (job ∷ jobs) = ap (λ l. job ∷ l) (jobs_of-all_discarded jobs)

pub handed-all_discarded : (jobs : List Job) → with_fate handed (all_discarded jobs) ≡ []
handed-all_discarded [] = refl
handed-all_discarded (job ∷ jobs) = handed-all_discarded jobs

pub discarded-all_discarded : (jobs : List Job) → with_fate discarded (all_discarded jobs) ≡ jobs
discarded-all_discarded [] = refl
discarded-all_discarded (job ∷ jobs) = ap (λ l. job ∷ l) (discarded-all_discarded jobs)

pub newest_of-append :
    (ended : List (Job × JobResult)) (job : Job) (r : JobResult)
    → newest_of (ended ++ (job, r) ∷ []) ≡ some r
newest_of-append [] job r = refl
newest_of-append (e ∷ []) job r = refl
newest_of-append (e ∷ f ∷ ended) job r = newest_of-append (f ∷ ended) job r
