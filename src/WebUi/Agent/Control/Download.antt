-- ===== src/WebUi/Agent/Control/Download.antt =====
-- internal/webui/agent.go: the download that "start" launches, with its cache directory.
use go_silver_core.Prelude.{
  ℕ, ◌≡◌, refl, ap, ◌∙◌, Bool, true, false, not, ◌||◌, arith, Option, none, some, List, [], ◌∷◌,
  ◌++◌, Str, if◌then◌else◌, All, Bool-cases, inl, inr,
}
use go_silver_core.Folders.{Entry, same}
use go_silver_core.Server.Sched.{is_empty}
use go_silver_core.WebUi.{Err, Result, ok, err, TaskSpec, Progress}
use go_silver_core.WebUi.Agent.{
  Agent, make_cache, remove_cache, prune_caches, report_progress, is_working,
}
use go_silver_core.WebUi.Agent.Runs.Caches.{
  AreListed, listed, make_cache_lem, make_cache-dirs, prune_caches-one, prune_caches-keeps,
}
use go_silver_core.WebUi.Agent.Runs.Keeps.{Run-Inv, new_agent-Inv}
use go_silver_core.WebUi.Agent.Runs.{
  new_agent, Run, next, makes_cache, removes_cache, prunes, reports,
}

-- What a download asks of the file system and of the transfer: `resolve`, os.MkdirAll, os.MkdirTemp,
-- `transfer.Resolve` for the entry of a single file, `receiver.RunTo` with its reports, and
-- `transfer.Extract`.
pub record Transfer : Type 0 where
  pub resolves : Str → Result Str
  pub mkdir_all : Str → Option Err
  pub mkdir_temp : Str → Result Str
  pub resolves_entry : Str → Str → Result Str
  pub run_to : Str → TaskSpec → List Progress × Option Err
  pub extract : Str → Str → TaskSpec → Option Err

-- filepath.Join, where the directory is clean and not the root.
abbrev pub path_join : Str → Str → Str
path_join dir name = dir ++ (b'/' ∷ name)

abbrev pub first_name : List Entry → Str
first_name [] = []
first_name (e ∷ es) = e.name

abbrev pub report_all : List Progress → Agent → Agent
report_all [] a = a
report_all (p ∷ ps) a = report_all ps (report_progress p a)

module _ (t : Transfer) (spec : TaskSpec) where
  -- Behind `RunTo`; `cache` is empty for a single file.
  abbrev pub unpack : Str → Str → Str → Option Err → Agent → Option Err × Agent
  unpack dir target cache (some e) a = (some e, if is_empty cache then a else remove_cache cache a)
  unpack dir target cache none a =
      (if spec.archive then t.extract target dir spec else none, prune_caches cache a)

  abbrev pub receive : Str → Str → Str → Agent → Option Err × Agent
  receive dir target cache a =
      let (ps, e) = t.run_to target spec in unpack dir target cache e (report_all ps a)

  abbrev pub in_cache : Str → Result Str → Agent → Option Err × Agent
  in_cache dir (err e) a = (some e, a)
  in_cache dir (ok cache) a =
      receive dir (path_join cache spec.meta.file_name) cache (make_cache cache a)

  abbrev pub as_entry : Str → Result Str → Agent → Option Err × Agent
  as_entry dir (err e) a = (some e, a)
  as_entry dir (ok target) a = receive dir target [] a

  -- An archive goes to a cache directory, a single file to its place.
  abbrev pub by_kind : Bool → Str → Agent → Option Err × Agent
  by_kind true dir a = in_cache dir (t.mkdir_temp dir) a
  by_kind false dir a = as_entry dir (t.resolves_entry dir (first_name spec.entries)) a

  abbrev pub in_dir : Str → Option Err → Agent → Option Err × Agent
  in_dir dir (some e) a = (some e, a)
  in_dir dir none a = by_kind spec.archive dir a

  abbrev pub with_dir : Result Str → Agent → Option Err × Agent
  with_dir (err e) a = (some e, a)
  with_dir (ok dir) a = in_dir dir (t.mkdir_all dir) a

  unfoldable pub download : Agent → Option Err × Agent
  download a = with_dir (t.resolves spec.target) a

report_progress_lem :
    (p : Progress) (a : Agent)
    → ((report_progress p a).download.jobs ≡ a.download.jobs)
      × ((report_progress p a).cache ≡ a.cache)
      × ((report_progress p a).dirs ≡ a.dirs)
unfolding report_progress
report_progress_lem p a = (refl, refl, refl)

make_cache-jobs : (p : Str) (a : Agent) → (make_cache p a).download.jobs ≡ a.download.jobs
unfolding make_cache
make_cache-jobs p a = refl

report_all-listed :
    (ps : List Progress) (a : Agent)
    → AreListed a.cache a.dirs
    → AreListed (report_all ps a).cache (report_all ps a).dirs
report_all-listed [] a h = h
report_all-listed (p ∷ ps) a h =
    report_all-listed ps (report_progress p a) (unfold report_progress in h)

report_all-dirs : (ps : List Progress) (a : Agent) → (report_all ps a).dirs ≡ a.dirs
report_all-dirs [] a = refl
report_all-dirs (p ∷ ps) a = report_all-dirs ps (report_progress p a) ∙ (report_progress_lem p a).2

-- The cache directory of a download: what os.MkdirTemp makes for an archive, and none (the empty
-- name) for a single file.
abbrev pub made_name : Result Str → Str
made_name (err e) = []
made_name (ok cache) = cache

abbrev pub own_by : Transfer → Bool → Str → Str
own_by t true dir = made_name (t.mkdir_temp dir)
own_by t false dir = []

abbrev pub own_in : Transfer → Bool → Result Str → Str
own_in t archive (err e) = []
own_in t archive (ok dir) = own_by t archive dir

abbrev pub own_cache : Transfer → TaskSpec → Str
own_cache t spec = own_in t spec.archive (t.resolves spec.target)

-- No directory but this one stays, and the one of an archive does.
abbrev pub OneLeft : Bool → Str → Agent → Type 0
OneLeft archive own a =
    All (λ d. same d own ≡ true) a.dirs × ((not archive || listed a.dirs own) ≡ true)

-- A run goes on while the goroutine `c` works.
abbrev Working : ℕ → Agent → Type 0
Working c a = is_working c a.download.jobs ≡ true

module _ {o : Agent} (c : ℕ) where
  report_all-Run :
      (ps : List Progress) (a : Agent)
      → Working c a
      → Run o a
      → Run o (report_all ps a) × Working c (report_all ps a)
  report_all-Run [] a w r = (r, w)
  report_all-Run (p ∷ ps) a w r =
      let jobs = (report_progress_lem p a).0 in
      report_all-Run ps (report_progress p a) (ap (is_working c) jobs ∙ w)
        (next r (reports c p w refl))

  module _ (t : Transfer) (spec : TaskSpec) where
    unpack-Run :
        (dir target cache : Str) (e : Option Err) (a : Agent)
        → Working c a
        → Run o a
        → Run o (unpack t spec dir target cache e a).1
    unpack-Run dir target cache none a w r = next r (prunes c cache w refl)
    unpack-Run dir target cache (some e) a w r = elim (Bool-cases (is_empty cache)) [
      | inl single ↦ rw single r
      | inr archive ↦ rw archive (next r (removes_cache c cache w refl))
    ]

    receive-Run :
        (dir target cache : Str) (a : Agent)
        → Working c a
        → Run o a
        → Run o (receive t spec dir target cache a).1
    receive-Run dir target cache a w r =
        let (r', w') = report_all-Run (t.run_to target spec).0 a w r in
        unpack-Run dir target cache (t.run_to target spec).1 _ w' r'

    in_cache-Run :
        (dir : Str) (made : Result Str) (a : Agent)
        → Working c a
        → Run o a
        → Run o (in_cache t spec dir made a).1
    in_cache-Run dir (err e) a w r = r
    in_cache-Run dir (ok cache) a w r =
        receive-Run dir _ cache (make_cache cache a)
          (ap (is_working c) (make_cache-jobs cache a) ∙ w) (next r (makes_cache c cache w refl))

    as_entry-Run :
        (dir : Str) (target : Result Str) (a : Agent)
        → Working c a
        → Run o a
        → Run o (as_entry t spec dir target a).1
    as_entry-Run dir (err e) a w r = r
    as_entry-Run dir (ok target) a w r = receive-Run dir target [] a w r

    by_kind-Run :
        (archive : Bool) (dir : Str) (a : Agent)
        → Working c a
        → Run o a
        → Run o (by_kind t spec archive dir a).1
    by_kind-Run true dir a w r = in_cache-Run dir (t.mkdir_temp dir) a w r
    by_kind-Run false dir a w r =
        as_entry-Run dir (t.resolves_entry dir (first_name spec.entries)) a w r

    in_dir-Run :
        (dir : Str) (e : Option Err) (a : Agent)
        → Working c a
        → Run o a
        → Run o (in_dir t spec dir e a).1
    in_dir-Run dir (some e) a w r = r
    in_dir-Run dir none a w r = by_kind-Run spec.archive dir a w r

    with_dir-Run :
        (dir : Result Str) (a : Agent) → Working c a → Run o a → Run o (with_dir t spec dir a).1
    with_dir-Run (err e) a w r = r
    with_dir-Run (ok dir) a w r = in_dir-Run dir (t.mkdir_all dir) a w r

-- What the successful end of a download leaves on the disk.
module _ (t : Transfer) (spec : TaskSpec) where
  module _ (archive : Bool) where
    unpack-OneLeft :
        (dir target cache : Str) (e : Option Err) (a : Agent)
        → AreListed a.cache a.dirs
        → (not archive || listed a.dirs cache) ≡ true
        → (unpack t spec dir target cache e a).0 ≡ none
        → OneLeft archive cache (unpack t spec dir target cache e a).1
    unpack-OneLeft dir target cache (some e) a l own h = absurd (cc)
    unpack-OneLeft dir target cache none a l own h = (
      prune_caches-one cache a l,
      elim (Bool-cases (listed a.dirs cache)) [
        | inl there ↦ ground (arith, prune_caches-keeps cache a there)
        | inr absent ↦ ground (arith, absent, own)
      ],
    )

    receive-OneLeft :
        (dir target cache : Str) (a : Agent)
        → AreListed a.cache a.dirs
        → (not archive || listed a.dirs cache) ≡ true
        → (receive t spec dir target cache a).0 ≡ none
        → OneLeft archive cache (receive t spec dir target cache a).1
    receive-OneLeft dir target cache a l own h =
        let (ps, e) = t.run_to target spec in
        unpack-OneLeft dir target cache e _ (report_all-listed ps a l)
          (ap (λ x. not archive || listed x cache) (report_all-dirs ps a) ∙ own) h

  in_cache-OneLeft :
      (dir : Str) (made : Result Str) (a : Agent)
      → AreListed a.cache a.dirs
      → (in_cache t spec dir made a).0 ≡ none
      → OneLeft true (made_name made) (in_cache t spec dir made a).1
  in_cache-OneLeft dir (err e) a l h = absurd (cc)
  in_cache-OneLeft dir (ok cache) a l h =
      receive-OneLeft true dir _ cache (make_cache cache a) (make_cache_lem cache a l)
        (make_cache-dirs cache a) h

  as_entry-OneLeft :
      (dir : Str) (target : Result Str) (a : Agent)
      → AreListed a.cache a.dirs
      → (as_entry t spec dir target a).0 ≡ none
      → OneLeft false [] (as_entry t spec dir target a).1
  as_entry-OneLeft dir (err e) a l h = absurd (cc)
  as_entry-OneLeft dir (ok target) a l h = receive-OneLeft false dir target [] a l refl h

  by_kind-OneLeft :
      (archive : Bool) (dir : Str) (a : Agent)
      → AreListed a.cache a.dirs
      → (by_kind t spec archive dir a).0 ≡ none
      → OneLeft archive (own_by t archive dir) (by_kind t spec archive dir a).1
  by_kind-OneLeft true dir a l h = in_cache-OneLeft dir (t.mkdir_temp dir) a l h
  by_kind-OneLeft false dir a l h =
      as_entry-OneLeft dir (t.resolves_entry dir (first_name spec.entries)) a l h

  in_dir-OneLeft :
      (dir : Str) (e : Option Err) (a : Agent)
      → AreListed a.cache a.dirs
      → (in_dir t spec dir e a).0 ≡ none
      → OneLeft spec.archive (own_by t spec.archive dir) (in_dir t spec dir e a).1
  in_dir-OneLeft dir (some e) a l h = absurd (cc)
  in_dir-OneLeft dir none a l h = by_kind-OneLeft spec.archive dir a l h

  with_dir-OneLeft :
      (dir : Result Str) (a : Agent)
      → AreListed a.cache a.dirs
      → (with_dir t spec dir a).0 ≡ none
      → OneLeft spec.archive (own_in t spec.archive dir) (with_dir t spec dir a).1
  with_dir-OneLeft (err e) a l h = absurd (cc)
  with_dir-OneLeft (ok dir) a l h = in_dir-OneLeft dir (t.mkdir_all dir) a l h

-- A download that succeeds, of a goroutine at work, did to the agent only what the step relation
-- allows, so that what holds of its runs holds with it; and of all the cache directories that this
-- and earlier downloads made, none but the one that this download made is left on the disk, which is
-- there if the download is an archive.
pub download-Run :
    (t : Transfer) (spec : TaskSpec) (root token sender_addr : Str) (allow : Bool) (a : Agent)
    (c : ℕ)
    → Run (new_agent root token sender_addr allow) a
    → is_working c a.download.jobs ≡ true
    → (download t spec a).0 ≡ none
    → Run (new_agent root token sender_addr allow) (download t spec a).1
      × OneLeft spec.archive (own_cache t spec) (download t spec a).1
unfolding download
download-Run t spec root token sender_addr allow a c r w h = (
  with_dir-Run c t spec (t.resolves spec.target) a w r,
  with_dir-OneLeft t spec (t.resolves spec.target) a
      (Run-Inv r (new_agent-Inv root token sender_addr allow)).caches h,
)
