-- ===== src/Juicefs/Modes.antt =====
-- The mode of a volume's directory.
use dfs_csi.Prelude.{◌≡◌, refl, String, ◌∷◌, arith}
use dfs_csi.Strings.{join_path}
use dfs_csi.System.{System, Trace, Event, ok}
use dfs_csi.System.Io.{
  Io, Outcome, and_then, pure, done, fails, panics, hung, stat, chmod, ◌>>=◌, ◌>>◌,
}
use dfs_csi.Juicefs.{Jfs, open_mode, set_limits, create_vol}
use dfs_csi.Juicefs.ConsoleApi.{Codec}

-- The last call read the mode 0777 of the path, or gave it that mode.
abbrev pub IsOpen : String → Trace → Type 0
IsOpen path (Event.statted p (ok info) ∷ t) = (p ≡ path) × (info.perm ≡ 0o777)
IsOpen path (Event.changed_mode p m (ok u) ∷ t) = (p ≡ path) × (m ≡ 0o777)
IsOpen path _ = ⊥

-- An outcome that, if it is one of success, is the path, with its mode open.
abbrev pub Opens : String → Outcome String → Type 0
Opens path (done p t) = (p ≡ path) × IsOpen path t
Opens path _ = Unit {0}

abbrev OpensAfter : String → Outcome (Unit {0}) → Type 0
OpensAfter path (done u t) = IsOpen path t
OpensAfter path _ = Unit {0}

module _ {A : Type 0} where
  then-Opens :
      (path : String) (m : Io A) (f : A → Io String)
      → ((a : A) (u : Trace) → Opens path (f a u))
      → (t : Trace) → Opens path ((m >>= f) t)
  unfolding ◌>>=◌
  then-Opens path m f next t = by_outcome (m t)
    where
      by_outcome : (o : Outcome A) → Opens path (and_then o f)
      by_outcome (done a u) = next a u
      by_outcome (fails e u) = tt
      by_outcome (panics s u) = tt
      by_outcome (hung u) = tt

module _ (sys : System) where
  open_mode-Opens : (path : String) (t : Trace) → OpensAfter path (open_mode sys path t)
  unfolding open_mode stat chmod ◌>>=◌
  open_mode-Opens path t = ground arith

  module _ (codec : Codec) (fs : Jfs) (sub_path : String) where
    limits-Opens :
        (path : String) (o : Outcome (Unit {0}))
        → OpensAfter path o
        → Opens path (and_then o (λ _. set_limits sys codec fs sub_path 0 "" >> pure path))
    unfolding set_limits ◌>>◌ ◌>>=◌
    limits-Opens path (done u t) seen = (refl, seen)
    limits-Opens path (fails e t) seen = tt
    limits-Opens path (panics s t) seen = tt
    limits-Opens path (hung t) seen = tt

    rest-Opens :
        (path : String) (t : Trace)
        → Opens path
            ((open_mode sys path >> (set_limits sys codec fs sub_path 0 "" >> pure path)) t)
    unfolding ◌>>◌ ◌>>=◌
    rest-Opens path t = limits-Opens path (open_mode sys path t) (open_mode-Opens path t)

    then_rest-Opens :
        (path : String) (m : Io (Unit {0})) (t : Trace)
        → Opens path
            ((m >> (open_mode sys path >> (set_limits sys codec fs sub_path 0 "" >> pure path))) t)
    unfolding ◌>>◌
    then_rest-Opens path m t = then-Opens path m _ (λ _. rest-Opens path) t

    -- CreateVol as NodePublishVolume calls it, without a size and QoS, returns the path of the volume's
    -- directory, and only if its last call saw the mode 0777 there or set it.
    pub create_vol-Opens :
        (t : Trace)
        → Opens (join_path fs.mount_path sub_path) (create_vol sys codec fs sub_path 0 "" t)
    unfolding create_vol
    create_vol-Opens t =
        then-Opens (join_path fs.mount_path sub_path) _ _
          (λ exists. then_rest-Opens (join_path fs.mount_path sub_path) _) t
