-- ===== src/WebUi/Agent/Runs/Caches.antt =====
-- internal/webui/agent.go: no cache directory is forgotten.
use go_silver_core.Prelude.{
  ◌≡◌, refl, sym, ◌∙◌, Bool, true, false, not, ◌||◌, List, [], ◌∷◌, ◌++◌, Str, any, filter, All,
  Bool-cases, inl, inr, arith,
}
use go_silver_core.Folders.{same}
use go_silver_core.WebUi.Agent.{
  Agent, make_cache, remove_cache, prune_caches, remove_all, remove_each,
}

abbrev pub listed : List Str → Str → Bool
listed cache d = any (same d) cache

-- Every cache directory on disk is in the agent's list.
abbrev pub AreListed : List Str → List Str → Type 0
AreListed cache dirs = All (λ d. listed cache d ≡ true) dirs

same_self : (d : Str) → same d d ≡ true
same_self d = ground arith

listed-append :
    (d p : Str) (cache : List Str) → listed (cache ++ p ∷ []) d ≡ (listed cache d || same d p)
listed-append d p [] = ground arith
listed-append d p (q ∷ qs) = ground (arith, listed-append d p qs)

more_listed :
    (p : Str) (cache dirs : List Str) → AreListed cache dirs → AreListed (cache ++ p ∷ []) dirs
more_listed p cache [] h = tt
more_listed p cache (d ∷ ds) h =
    (ground (arith, listed-append d p cache, h.0), more_listed p cache ds h.1)

pub make_cache_lem :
    (p : Str) (a : Agent)
    → AreListed a.cache a.dirs
    → AreListed (make_cache p a).cache (make_cache p a).dirs
unfolding make_cache
make_cache_lem p a h =
    (ground (arith, listed-append p p a.cache, same_self p), more_listed p a.cache a.dirs h)

All-imp : (P Q : Str → Type 0) (ds : List Str) → ((d : Str) → P d → Q d) → All P ds → All Q ds
All-imp P Q [] f h = tt
All-imp P Q (d ∷ ds) f h = (f d h.0, All-imp P Q ds f h.1)

remove_all_lem :
    (P : Str → Type 0) (p : Str) (ds : List Str)
    → All P ds
    → All (λ d. P d × (same d p ≡ false)) (remove_all p ds)
remove_all_lem P p [] h = tt
remove_all_lem P p (d ∷ ds) h = elim (Bool-cases (same d p)) [
  | inl this ↦ rw this (remove_all_lem P p ds h.1)
  | inr other ↦ rw other ((h.0, other), remove_all_lem P p ds h.1)
]

-- What is left after the removal of a list of directories was there, and is not in the list.
removed_lem :
    (P : Str → Type 0) (ps dirs : List Str)
    → All P dirs
    → All (λ d. P d × (listed ps d ≡ false)) (remove_each ps dirs)
removed_lem P [] dirs h = All-imp P (λ d. P d × (listed [] d ≡ false)) dirs (λ d k. (k, refl)) h
removed_lem P (p ∷ ps) dirs h =
    All-imp (λ d. (P d × (same d p ≡ false)) × (listed ps d ≡ false))
      (λ d. P d × (listed (p ∷ ps) d ≡ false)) (remove_each ps (remove_all p dirs))
      (λ d k. (k.0.0, ground (arith, k.0.1, k.1)))
      (removed_lem (λ d. P d × (same d p ≡ false)) ps (remove_all p dirs)
        (remove_all_lem P p dirs h))

kept_listed :
    (p d : Str) (cache : List Str)
    → listed cache d ≡ true
    → same d p ≡ false
    → listed (filter (λ q. not (same q p)) cache) d ≡ true
kept_listed p d [] h n = cc
kept_listed p d (q ∷ qs) h n = ground (arith, kept_listed p d qs)

pub remove_cache_lem :
    (p : Str) (a : Agent)
    → AreListed a.cache a.dirs
    → AreListed (remove_cache p a).cache (remove_cache p a).dirs
unfolding remove_cache
remove_cache_lem p a h =
    All-imp (λ d. (listed a.cache d ≡ true) × (same d p ≡ false))
      (λ d. listed (filter (λ q. not (same q p)) a.cache) d ≡ true) (remove_all p a.dirs)
      (λ d k. kept_listed p d a.cache k.0 k.1)
      (remove_all_lem (λ d. listed a.cache d ≡ true) p a.dirs h)

parted :
    (p d : Str) (cache : List Str)
    → listed cache d ≡ true
    → listed (filter (λ q. not (same q p)) cache) d ≡ false
    → listed (filter (λ q. same q p) cache) d ≡ true
parted p d [] h n = cc
parted p d (q ∷ qs) h n = ground (arith, parted p d qs)

pub prune_caches_lem :
    (p : Str) (a : Agent)
    → AreListed a.cache a.dirs
    → AreListed (prune_caches p a).cache (prune_caches p a).dirs
unfolding prune_caches
prune_caches_lem p a h =
    let old = filter (λ q. not (same q p)) a.cache in
    All-imp (λ d. (listed a.cache d ≡ true) × (listed old d ≡ false))
      (λ d. listed (filter (λ q. same q p) a.cache) d ≡ true) (remove_each old a.dirs)
      (λ d k. parted p d a.cache k.0 k.1) (removed_lem (λ d. listed a.cache d ≡ true) old a.dirs h)

none_left :
    (cache ds : List Str)
    → All (λ d. (listed cache d ≡ true) × (listed cache d ≡ false)) ds
    → ds ≡ []
none_left cache [] h = refl
none_left cache (d ∷ ds) h = absurd (let e = sym h.0.0 ∙ h.0.1 in cc)

-- Removing everything in the list leaves nothing.
pub all_removed : (cache dirs : List Str) → AreListed cache dirs → remove_each cache dirs ≡ []
all_removed cache dirs h =
    none_left cache (remove_each cache dirs) (removed_lem (λ d. listed cache d ≡ true) cache dirs h)

kept_is :
    (p d : Str) (cache : List Str)
    → listed (filter (λ q. same q p) cache) d ≡ true
    → same d p ≡ true
kept_is p d [] h = absurd (cc)
kept_is p d (q ∷ qs) h = ground (arith, kept_is p d qs)

kept_each :
    (p : Str) (ps dirs : List Str)
    → All (λ q. same p q ≡ false) ps
    → listed dirs p ≡ true
    → listed (remove_each ps dirs) p ≡ true
kept_each p [] dirs o h = h
kept_each p (q ∷ ps) dirs o h = kept_each p ps (remove_all q dirs) o.1 (kept_listed q p dirs h o.0)

others_lem :
    (p : Str) (cache : List Str) → All (λ q. same p q ≡ false) (filter (λ q. not (same q p)) cache)
others_lem p [] = tt
others_lem p (q ∷ qs) = elim (Bool-cases (same q p)) [
  | inl this ↦ rw this (others_lem p qs)
  | inr other ↦ rw other (ground (arith, other), others_lem p qs)
]

-- The current directory itself stays.
pub prune_caches-keeps :
    (p : Str) (a : Agent) → listed a.dirs p ≡ true → listed (prune_caches p a).dirs p ≡ true
unfolding prune_caches
prune_caches-keeps p a h =
    kept_each p (filter (λ q. not (same q p)) a.cache) a.dirs (others_lem p a.cache) h

pub make_cache-dirs : (p : Str) (a : Agent) → listed (make_cache p a).dirs p ≡ true
unfolding make_cache
make_cache-dirs p a = ground (arith, same_self p)

-- After pruning, the directories that stay are the current one.
pub prune_caches-one :
    (p : Str) (a : Agent)
    → AreListed a.cache a.dirs
    → All (λ d. same d p ≡ true) (prune_caches p a).dirs
unfolding prune_caches
prune_caches-one p a h =
    All-imp (λ d. listed (filter (λ q. same q p) a.cache) d ≡ true) (λ d. same d p ≡ true)
      (prune_caches p a).dirs (λ d k. kept_is p d a.cache k) (prune_caches_lem p a h)
