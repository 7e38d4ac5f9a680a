-- ===== src/Steps/Collect/Laws.antt =====
-- step_collect_artifact.go: what a successful copy leaves in the files.
use mathlib.Core.List.{append_assoc, append-nil}
use mathlib.Core.Path.{subst}
use packer_plugin_cloud_hype.Prelude.{
  ◌≡◌, refl, sym, ◌∙◌, Bool, true, false, Option, none, some, List, [], ◌∷◌, ◌++◌, map, Str, str_eq,
  str_eq_self, str_eq-eq, Bool-cases, inl, inr, ap, if◌then◌else◌, arith, All,
}
use packer_plugin_cloud_hype.Runtime.{
  Result, ok, Node, file, Platform, Machine, os_open, os_create, io_copy,
}
use packer_plugin_cloud_hype.Steps.Collect.{destination, copy_file, copy_all}

abbrev pub is_file : Option Node → Bool
is_file (some (file bytes)) = true
is_file _ = false

-- A text that is none of the destinations of the sources.
abbrev pub OffDestinations : Str → List Str → Str → Type 0
OffDestinations dir srcs q = All (λ t. str_eq q (destination dir t) ≡ false) srcs

-- The sources have destinations that differ.
abbrev pub Distinct : Str → List Str → Type 0
Distinct dir [] = Unit
Distinct dir (s ∷ rest) = OffDestinations dir rest (destination dir s) × Distinct dir rest

-- No source is the destination of one of the others, or of itself.
abbrev pub Outside : Str → List Str → List Str → Type 0
Outside dir dests srcs = All (OffDestinations dir dests) srcs

Outside-tail :
    (dir s : Str) (dests srcs : List Str) → Outside dir (s ∷ dests) srcs → Outside dir dests srcs
Outside-tail dir s dests [] h = tt
Outside-tail dir s dests (t ∷ srcs) h = (h.0.1, Outside-tail dir s dests srcs h.1)

module _ ⦃P : Platform⦄ where
  pub copy_file-content :
      (src dst : Str) (w : Machine)
      → (copy_file src dst w).0 ≡ none
      → str_eq src dst ≡ false
      → let v = (copy_file src dst w).1 in
        (is_file (w.files src) ≡ true)
        × (v.files dst ≡ w.files src)
        × ((q : Str) → str_eq q dst ≡ false → v.files q ≡ w.files q)
  unfolding copy_file os_open os_create io_copy
  copy_file-content src dst w done apart =
      (ground arith, ground (arith, str_eq_self dst), λ q h. ground arith)

  -- A copy between two different paths that succeeds has found a file at the source, and leaves
  -- its content at the destination and every other path as it was.
  pub copy_file_lem :
      (src dst q : Str) (w : Machine)
      → (copy_file src dst w).0 ≡ none
      → str_eq src dst ≡ false
      → (is_file (w.files src) ≡ true)
        × ((copy_file src dst w).1.files q ≡ (if str_eq q dst then w.files src else w.files q))
  copy_file_lem src dst q w done apart =
      let (found, there, others) = copy_file-content src dst w done apart in
      (
        found,
        elim (Bool-cases (str_eq q dst)) [
          | inl same ↦ rw (same, ap (copy_file src dst w).1.files (str_eq-eq q dst same)) there
          | inr differ ↦ rw differ (others q differ)
        ],
      )

  -- A copy of a file onto itself that succeeds leaves it empty.
  pub copy_file_self :
      (p : Str) (w : Machine)
      → (copy_file p p w).0 ≡ none
      → (copy_file p p w).1.files p ≡ some (file [])
  unfolding copy_file os_open os_create io_copy
  copy_file_self p w done = ground (arith, str_eq_self p)

  abbrev copied_one : Str → Str → Machine → Machine
  copied_one dir s w = (copy_file s (destination dir s) w).1

  -- A loop that has reported files has copied its first source, and has gone on behind it.
  copy_all-inv :
      (dir s : Str) (rest copied : List Str) (w : Machine) {files : List Str}
      → (copy_all dir (s ∷ rest) copied w).0 ≡ ok files
      → ((copy_file s (destination dir s) w).0 ≡ none)
        × (copy_all dir (s ∷ rest) copied w
            ≡ copy_all dir rest (copied ++ destination dir s ∷ []) (copied_one dir s w))
  unfolding copy_all
  copy_all-inv dir s rest copied w done = (ground arith, ground arith)

  -- The paths that a loop reports, in the order of the sources.
  pub copy_all-files :
      (dir : Str) (srcs copied : List Str) (w : Machine) {files : List Str}
      → (copy_all dir srcs copied w).0 ≡ ok files
      → files ≡ copied ++ map (destination dir) srcs
  copy_all-files dir [] copied w done = unfold copy_all in ground (arith, append-nil copied)
  copy_all-files dir (s ∷ rest) copied w done =
      let (worked, e) = copy_all-inv dir s rest copied w done in
      copy_all-files dir rest (copied ++ destination dir s ∷ []) (copied_one dir s w) (rw e at done)
      ∙ append_assoc copied (destination dir s ∷ []) (map (destination dir) rest)

  copy_all-others :
      (dir : Str) (srcs copied : List Str) (w : Machine) {files : List Str}
      → Outside dir srcs srcs
      → (q : Str) → OffDestinations dir srcs q
      → (copy_all dir srcs copied w).0 ≡ ok files
      → (copy_all dir srcs copied w).1.files q ≡ w.files q
  copy_all-others dir [] copied w out q off done = unfold copy_all in refl
  copy_all-others dir (s ∷ rest) copied w out q off done =
      let (worked, e) = copy_all-inv dir s rest copied w done in
      rw e (
        copy_all-others dir rest (copied ++ destination dir s ∷ []) (copied_one dir s w)
          (Outside-tail dir s rest rest out.1) q off.1 (rw e at done)
        ∙ (copy_file-content s (destination dir s) w worked out.0.0).2 q off.0)

  -- That each source's content has come to its destination, from one machine to another.
  abbrev pub Arrived : Str → Machine → Machine → List Str → Type 0
  Arrived dir w v = All (λ s. v.files (destination dir s) ≡ w.files s)

  -- What arrived from a machine in which the sources were as in another has arrived from that.
  pub Arrived-from :
      (dir : Str) (w u v : Machine) (srcs : List Str)
      → All (λ s. u.files s ≡ w.files s) srcs
      → Arrived dir u v srcs
      → Arrived dir w v srcs
  Arrived-from dir w u v [] same h = tt
  Arrived-from dir w u v (s ∷ rest) same h = (h.0 ∙ same.0, Arrived-from dir w u v rest same.1 h.1)

  -- The sources that a copy to somewhere else leaves alone.
  sources_kept :
      (dir s : Str) (dests : List Str) (w : Machine) (rest : List Str)
      → (copy_file s (destination dir s) w).0 ≡ none
      → str_eq s (destination dir s) ≡ false
      → Outside dir (s ∷ dests) rest
      → All (λ t. (copied_one dir s w).files t ≡ w.files t) rest
  sources_kept dir s dests w [] worked apart out = tt
  sources_kept dir s dests w (t ∷ rest) worked apart out = (
    (copy_file-content s (destination dir s) w worked apart).2 t out.0.0,
    sources_kept dir s dests w rest worked apart out.1,
  )

  pub copy_all-Arrived :
      (dir : Str) (srcs copied : List Str) (w : Machine) {files : List Str}
      → Distinct dir srcs
      → Outside dir srcs srcs
      → (copy_all dir srcs copied w).0 ≡ ok files
      → Arrived dir w (copy_all dir srcs copied w).1 srcs
  copy_all-Arrived dir [] copied w distinct out done = tt
  copy_all-Arrived dir (s ∷ rest) copied w distinct out done =
      let (worked, e) = copy_all-inv dir s rest copied w done in
      let u = copied_one dir s w in
      let next = copied ++ destination dir s ∷ [] in
      let inner = Outside-tail dir s rest rest out.1 in
      let apart = out.0.0 in
      subst (λ (r : Result (List Str) × Machine). Arrived dir w r.1 (s ∷ rest)) (sym e)
        (
          copy_all-others dir rest next u inner (destination dir s) distinct.0 (rw e at done)
              ∙ (copy_file-content s (destination dir s) w worked apart).1,
          Arrived-from dir w u (copy_all dir rest next u).1 rest
              (sources_kept dir s rest w rest worked apart out.1)
              (copy_all-Arrived dir rest next u distinct.1 inner (rw e at done)),
        )
