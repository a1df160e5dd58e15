-- ===== src/Session/State/Jobs.antt =====
-- The well-formed sessions of src/stratum.rs, and theorems on their jobs.
use stratum_bee.Base.{
  ltb, ◌==◌, if◌then◌else◌, Bool-cases, length, Bytes, IsU32, Text, text_eq_refl, ok, ℕ, ◌+◌, ◌%◌,
  ◌^◌, ◌≤◌, ◌<◌, max, ◌≡◌, refl, ap, ◌∙◌, inl, inr, false, Option, none, some, List, [], ◌∷◌, ◌++◌,
  arith,
}
use stratum_bee.Crates.{Crates}
use stratum_bee.Float.{FloatOps}
use stratum_bee.Job.{JobTemplate}
use stratum_bee.Share.{share_target_le}
use stratum_bee.Session.State.{
  SessionJob, SessionState, max_jobs, trim_jobs, mark_stale, retain_fresh, mark_jobs_stale_block,
  find_last, find_job, set_difficulty, session_job, push_job,
}
use stratum_bee.Session.JobId.RoundTrip.{normalize_session_job_id-format}
use stratum_bee.Session.JobId.{normalize_session_job_id}

length-trim_jobs {ℓ} : {A : Type ℓ} (jobs : List A) → length (trim_jobs jobs) ≤ max_jobs
unfolding trim_jobs
length-trim_jobs [] = omega arith
length-trim_jobs (job ∷ jobs) = ground (arith, length-trim_jobs jobs)

-- Trimming drops a front, and never the last job.
trim_jobs-last {ℓ} :
    {A : Type ℓ} (jobs : List A) (last : A)
    → (kept : List A) × (trim_jobs (jobs ++ (last ∷ [])) ≡ kept ++ (last ∷ []))
unfolding trim_jobs
trim_jobs-last [] last = ([], refl)
trim_jobs-last (job ∷ jobs) last =
    let (kept, e) = trim_jobs-last jobs last in
    elim (Bool-cases (ltb max_jobs (length (job ∷ jobs ++ (last ∷ []))))) [
      | inl long ↦ (
        kept,
        ap (λ b. if b then trim_jobs (jobs ++ (last ∷ [])) else job ∷ jobs ++ (last ∷ [])) long ∙ e,
      )
      | inr short ↦ (
        job ∷ jobs,
        ap (λ b. if b then trim_jobs (jobs ++ (last ∷ [])) else job ∷ jobs ++ (last ∷ [])) short,
      )
    ]

module _ {F : Type 0} where
  find_last-append :
      (id : Text) (jobs : List (SessionJob F)) (entry : SessionJob F)
      → entry.session_job_id ≡ id
      → entry.is_stale_block ≡ false
      → find_last id (jobs ++ (entry ∷ [])) ≡ some entry
  unfolding find_last
  find_last-append id [] entry e fresh = rw (e, text_eq_refl id, fresh)
  find_last-append id (job ∷ jobs) entry e fresh = rw (find_last-append id jobs entry e fresh)

  find_last-trim_jobs :
      (id : Text) (jobs : List (SessionJob F)) (entry : SessionJob F)
      → entry.session_job_id ≡ id
      → entry.is_stale_block ≡ false
      → find_last id (trim_jobs (jobs ++ (entry ∷ []))) ≡ some entry
  find_last-trim_jobs id jobs entry e fresh =
      let (kept, same) = trim_jobs-last jobs entry in
      rw same (find_last-append id kept entry e fresh)

  find_job-normal :
      (s : SessionState F) (id : Text) (found : SessionJob F)
      → normalize_session_job_id id ≡ some id
      → find_last id s.jobs ≡ some found
      → find_job s id ≡ some found
  unfolding find_job
  find_job-normal s id found normal e = ground arith

  pub retain_fresh-mark_stale : (jobs : List (SessionJob F)) → retain_fresh (mark_stale jobs) ≡ []
  unfolding retain_fresh mark_stale
  retain_fresh-mark_stale [] = refl
  retain_fresh-mark_stale (job ∷ jobs) = retain_fresh-mark_stale jobs

  -- After the jobs are marked stale for a new block, no job of the session is found by any
  -- identifier.
  pub find_job-mark_jobs_stale_block :
      (s : SessionState F) (job_id : Text) → find_job (mark_jobs_stale_block s) job_id ≡ none
  unfolding find_job mark_jobs_stale_block find_last
  find_job-mark_jobs_stale_block s job_id = rw (retain_fresh-mark_stale s.jobs) (ground arith)

module _ {F : Type 0} (c : Crates) (f : FloatOps F) where
  -- A state whose target is that of its difficulty, with a 32-bit counter and at most 32 jobs.
  pub record IsSession (s : SessionState F) : Type 0 where
    pub target : share_target_le c f s.difficulty ≡ ok s.share_target_cache
    pub counter : IsU32 s.next_job_id
    pub positive : 0 < s.next_job_id
    pub few_jobs : length s.jobs ≤ max_jobs

  pub set_difficulty-IsSession :
      (s : SessionState F) (diff : F) → IsSession s → IsSession (set_difficulty c f s diff)
  unfolding set_difficulty
  set_difficulty-IsSession s diff v = ground arith

  -- The counter after `push_job`.
  abbrev with_counter : SessionState F → ℕ → SessionState F
  with_counter s id = record s { next_job_id = max ((id + 1) % 2 ^ 32) 1 }

  with_counter-IsSession :
      (s : SessionState F) (id : ℕ) → IsSession s → IsSession (with_counter s id)
  with_counter-IsSession s id v = record {
    target = v.target;
    counter = omega arith;
    positive = omega arith;
    few_jobs = v.few_jobs;
  }

  with_jobs-IsSession :
      (s : SessionState F) (jobs : List (SessionJob F))
      → IsSession s
      → length jobs ≤ max_jobs
      → IsSession (record s { jobs = jobs })
  with_jobs-IsSession s jobs v few = record {
    target = v.target;
    counter = v.counter;
    positive = v.positive;
    few_jobs = few;
  }

  -- Pushing a job, with any difficulty, keeps a session well formed: its target is that of its
  -- difficulty, its counter is a positive 32-bit number and it has at most 32 jobs.
  pub push_job-IsSession :
      (s : SessionState F) (job : JobTemplate F) (diff : F) (en1 : Bytes) (ntime : Option Text)
      → IsSession s
      → IsSession (push_job c f s job diff en1 ntime).0
  unfolding push_job
  push_job-IsSession s job diff en1 ntime v =
      with_jobs-IsSession _ _
        (set_difficulty-IsSession (with_counter s _) diff (with_counter-IsSession s _ v))
        (length-trim_jobs _)

  -- In a well-formed session the job that was pushed last is found by the identifier that is sent
  -- with it.
  pub find_job-push_job :
      (s : SessionState F) (job : JobTemplate F) (diff : F) (en1 : Bytes) (ntime : Option Text)
      → IsSession s
      → let (s', entry) = push_job c f s job diff en1 ntime in
        find_job s' entry.session_job_id ≡ some entry
  unfolding push_job session_job
  find_job-push_job s job diff en1 ntime v =
      find_job-normal _ _ _
        (normalize_session_job_id-format (if s.next_job_id == 0 then 1 else s.next_job_id)
          (ground (arith, v.counter)))
        (find_last-trim_jobs _ _ _ refl refl)
