-- ===== src/Common/Paths.antt =====
-- `std::path` as far as the code uses it, and `translate_path` of fsyncd/src/common/mod.rs.
--
-- A path is absolute or relative, and has components, each a list of bytes.
use fsyncer.Base.{
  ℕ, zero, suc, ◌+◌, ◌/◌, ◌%◌, ◌≡◌, Bool, false, List, [], ◌∷◌, ◌++◌, if◌then◌else◌, ltb, arith,
}

pub record FilePath : Type 0 where
  pub is_absolute : Bool
  pub components : List (List ℕ)

-- `PathBuf::new()`.
abbrev pub empty_path : FilePath
empty_path = record { is_absolute = false; components = [] }

-- `Path::join`: an absolute argument replaces the path.
abbrev pub join : FilePath → FilePath → FilePath
join root path =
    if path.is_absolute
    then path
    else record { is_absolute = root.is_absolute; components = root.components ++ path.components }

-- `strip_prefix("/")` of an absolute path.
abbrev pub strip_root : FilePath → FilePath
strip_root path = record { is_absolute = false; components = path.components }

unfoldable pub translate_path : FilePath → FilePath → FilePath
translate_path path root = join root (if path.is_absolute then strip_root path else path)

-- A translated path lies below the root, whether the path was absolute or not.
pub components-translate_path :
    (path root : FilePath)
    → (translate_path path root).components ≡ root.components ++ path.components
unfolding translate_path
components-translate_path path root = ground arith

-- The decimal digits that `{}` prints.
abbrev decimal_fuel : ℕ → ℕ → List ℕ → List ℕ
decimal_fuel zero n acc = acc
decimal_fuel (suc f) n acc =
    let acc' = (48 + n % 10) ∷ acc in
    let rest = decimal_fuel f (n / 10) acc' in if ltb n 10 then acc' else rest

unfoldable pub decimal : ℕ → List ℕ
decimal n = decimal_fuel (suc n) n []
