-- ===== src/Config/Prepare/Accepted.antt =====
-- config.go `Prepare` as a whole: what an accepted configuration is like.
use mathlib.Core.Path.{subst}
use packer_plugin_cloud_hype.Prelude.{
  ◌≡◌, refl, sym, Option, none, some, List, [], ◌∷◌, arith, Str, ◌↔◌, is_empty, false,
}
use packer_plugin_cloud_hype.Runtime.{Error, Files, Result, ok, err, Platform, Machine}
use packer_plugin_cloud_hype.Config.Types.{Config}
use packer_plugin_cloud_hype.Config.Keys.{Raw, known_keys, filter_raws}
use packer_plugin_cloud_hype.Config.Prepare.{
  Decoder, Prepared, validate, socket_for, decoded, with_comm, with_socket, checked, prepare,
  disk_warnings, set_defaults,
}
use packer_plugin_cloud_hype.Config.Prepare.Valid.{
  IsValid, validate-IsValid, files-validate, validate-eq-nil_iff,
}
use packer_plugin_cloud_hype.Config.Prepare.Laws.{IsFaultless}

module _ ⦃P : Platform⦄ where
  -- What an outcome without an error says.
  abbrev pub Accepted : List Raw → Prepared × Machine → Type 0
  Accepted raws r =
      r.0.error ≡ none
      → IsValid raws r.1.files r.0.config × (r.0.warnings ≡ disk_warnings r.0.config.disk_images)

  checked-Accepted : (raws : List Raw) (c : Config) (w : Machine) → Accepted raws (checked raws c w)
  checked-Accepted raws c w h =
      let clean : (validate raws c w).0 ≡ [] = ground arith in
      (
        subst (λ (fs : Files). IsValid raws fs c) (sym (files-validate c raws w))
            (validate-IsValid c raws w clean),
        refl,
      )

  with_socket-Accepted :
      (raws : List Raw) (c : Config) (r : Result Str) (w : Machine)
      → Accepted raws (with_socket raws c r w)
  with_socket-Accepted raws c (err e) w h = cc
  with_socket-Accepted raws c (ok path) w h =
      checked-Accepted raws (record c { ch_socket_path = path }) w h

  with_comm-Accepted :
      (raws : List Raw) (c : Config) (es : List Error) (w : Machine)
      → Accepted raws (with_comm raws c es w)
  with_comm-Accepted raws c (e ∷ es) w h = cc
  with_comm-Accepted raws c [] w h =
      with_socket-Accepted raws c (socket_for c.ch_socket_path w).0
        (socket_for c.ch_socket_path w).1 h

  decoded-Accepted :
      (raws : List Raw) (e : Option Error) (c : Config) (w : Machine)
      → Accepted raws (decoded raws e c w)
  decoded-Accepted raws (some e) c w h = cc
  decoded-Accepted raws none c w h =
      let (r, s) = P.comm_prepare c.comm w.host in
      with_comm-Accepted raws (record c { comm = r.1 }) r.0 (record w { host = s }) h

  -- Where `Prepare` returns no error, the configuration that it leaves is well formed over the
  -- filtered arguments and the files as they then are, and the warnings are those on its disks.
  pub prepare-IsValid :
      (d : Decoder) (args : List Raw) (c : Config) (w : Machine)
      → (prepare d args c w).0.error ≡ none
      → IsValid
          (filter_raws args known_keys)
          (prepare d args c w).1.files
          (prepare d args c w).0.config
        × ((prepare d args c w).0.warnings
            ≡ disk_warnings (prepare d args c w).0.config.disk_images)
  unfolding prepare
  prepare-IsValid d args c w h = decoded-Accepted (filter_raws args known_keys) _ _ w h

  -- An outcome is without an error exactly when its configuration is well formed over the files.
  abbrev Exact : List Raw → Files → Prepared × Machine → Type 0
  Exact raws fs r = (r.0.error ≡ none) ↔ IsValid raws fs r.0.config

  checked-Exact :
      (raws : List Raw) (c : Config) (w : Machine)
      → IsFaultless
      → Exact raws w.files (checked raws c w)
  checked-Exact raws c w nf =
      let clean = validate-eq-nil_iff c raws w nf in
      (λ h. clean.0 (ground arith), λ v. let e = clean.1 v in ground arith)

  with_comm-Exact :
      (raws : List Raw) (c : Config) (w : Machine)
      → IsFaultless
      → is_empty c.ch_socket_path ≡ false
      → Exact raws w.files (with_comm raws c [] w)
  unfolding socket_for
  with_comm-Exact raws c w nf named =
      go c.ch_socket_path named
        (λ path. checked-Exact raws (record c { ch_socket_path = path }) w nf)
    where
      go :
          (path : Str)
          → is_empty path ≡ false
          → ((p : Str) → Exact raws w.files (checked raws (record c { ch_socket_path = p }) w))
          → Exact raws w.files (with_socket raws c (socket_for path w).0 (socket_for path w).1)
      go [] e next = absurd (ground arith)
      go (b ∷ path) e next = next (b ∷ path)

  -- Where no call of the system is refused, the template decodes, the communicator has no complaint
  -- and a socket path is set, `Prepare` returns no error exactly when the configuration that it
  -- leaves is well formed over the filtered arguments and the files.
  pub prepare-eq-none_iff :
      (d : Decoder) (args : List Raw) (c : Config) (w : Machine)
      → IsFaultless
      → (d.decode (filter_raws args known_keys) (set_defaults c)).0 ≡ none
      → (P.comm_prepare (d.decode (filter_raws args known_keys) (set_defaults c)).1.comm w.host).0.0
        ≡ []
      → is_empty (d.decode (filter_raws args known_keys) (set_defaults c)).1.ch_socket_path ≡ false
      → ((prepare d args c w).0.error ≡ none)
        ↔ IsValid (filter_raws args known_keys) w.files (prepare d args c w).0.config
  unfolding prepare
  prepare-eq-none_iff d args c w nf decodes quiet named =
      let raws = filter_raws args known_keys in
      let out = d.decode raws (set_defaults c) in
      let (r, s) = P.comm_prepare out.1.comm w.host in
      subst (λ e. Exact raws w.files (decoded raws e out.1 w)) (sym decodes)
        (subst
          (λ es.
            Exact raws w.files
              (with_comm raws (record out.1 { comm = r.1 }) es (record w { host = s })))
          (sym quiet)
          (with_comm-Exact raws (record out.1 { comm = r.1 }) (record w { host = s }) nf named))
