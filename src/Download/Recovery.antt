-- ===== src/Download/Recovery.antt =====
-- What a restart makes of the `.resume` files.
use mathlib.Core.Path.{subst}
use distri_store.Prelude.{
  ◌≡◌, refl, sym, ap, ◌∙◌, true, false, Option, none, some, [], ◌∷◌, Str, str_eq, str_eq_iff, inl,
  inr, Bool-cases, arith,
}
use distri_store.Prelude.Dict
use distri_store.Prelude.Dict.{Dict, IsDistinct, get-put, get-remove, get-put_self, get-remove_self}
use distri_store.Download.{paused, DownloadState, ResumeDict, from_resume_dict}
use distri_store.Download.Manager.{recover_from, init}

-- Every file is named after the download that it holds.
abbrev pub IsNamed : Dict (Option ResumeDict) → Type 0
IsNamed [] = Unit
IsNamed ((k, none) ∷ files) = IsNamed files
IsNamed ((k, some d) ∷ files) = (d.file_hash ≡ k) × IsNamed files

recover_from_absent :
    (files : Dict (Option ResumeDict)) (t : Dict DownloadState) (k : Str)
    → IsNamed files
    → Dict.get files k ≡ none
    → Dict.get (recover_from files t) k ≡ Dict.get t k
unfolding recover_from Dict.get
recover_from_absent [] t k n e = refl
recover_from_absent ((name, none) ∷ files) t k n e = recover_from_absent files t k n (ground arith)
recover_from_absent ((name, some d) ∷ files) t k n e =
    let other : str_eq name k ≡ false = ground arith in
    recover_from_absent files _ k n.1 (ground arith) ∙ rw (get-put, n.0, other)

recovered_self :
    (c : ResumeDict) (t : Dict DownloadState) (name k : Str)
    → c.file_hash ≡ name
    → str_eq name k ≡ true
    → Dict.get (Dict.put t c.file_hash (record (from_resume_dict c) { status = paused })) k
      ≡ some (record (from_resume_dict c) { status = paused })
recovered_self c t name k e same =
    let hit : str_eq c.file_hash k ≡ true = subst (λ h. str_eq h k ≡ true) (sym e) same in
    get-put t c.file_hash _ k ∙ rw hit

recover_from_found :
    (files : Dict (Option ResumeDict)) (t : Dict DownloadState) (k : Str) {d : ResumeDict}
    → IsDistinct files
    → IsNamed files
    → Dict.get files k ≡ some (some d)
    → Dict.get (recover_from files t) k ≡ some (record (from_resume_dict d) { status = paused })
unfolding recover_from Dict.get
recover_from_found [] t k h n e = absurd (cc)
recover_from_found ((name, none) ∷ files) t k h n e =
    recover_from_found files t k h.1 n (ground arith)
recover_from_found ((name, some c) ∷ files) t k {d} h n e = elim (Bool-cases (str_eq name k)) [
  | inr other ↦ recover_from_found files _ k h.1 n.1 (rw other at e)
  | inl same ↦
      let named : name ≡ k = (str_eq_iff name k).0 same in
      let alike : c ≡ d = ground arith in
      recover_from_absent files _ k n.1 (rw (← named) h.0)
      ∙ recovered_self c t name k n.0 same
      ∙ ap (λ (x : ResumeDict). some (record (from_resume_dict x) { status = paused })) alike
]

-- When each readable `.resume` file is named after the download that it holds, and no two have one
-- name: a restart tracks the download of every readable file as paused, with the chunks that the file
-- holds.
pub init_recovers :
    (files : Dict (Option ResumeDict)) (k : Str) {d : ResumeDict}
    → IsDistinct files
    → IsNamed files
    → Dict.get files k ≡ some (some d)
    → Dict.get (init files).downloads k ≡ some (record (from_resume_dict d) { status = paused })
unfolding init
init_recovers files k h n e = recover_from_found files [] k h n e
