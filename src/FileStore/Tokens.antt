-- ===== src/FileStore/Tokens.antt =====
-- `store` and `delete` of fsyncd/src/journal/filestore.rs. What the directory of the store holds is
-- `files`, the token of each file with its size; renames and removals do not fail where the file is
-- there. `store` is about a file of `size` bytes.
use fsyncer.Base.{
  ℕ, zero, suc, ◌+◌, ◌-◌, List, [], ◌∷◌, ◌++◌, Option, none, some, Outcome, ok, err, panic,
  not_found, ◌>>=◌, ltb, ◌==◌, if◌then◌else◌,
}

pub record FileStore : Type 0 where
  pub current_size : ℕ
  pub oldest_token : ℕ
  pub current_token : ℕ
  pub max_size : ℕ
  pub files : List (ℕ × ℕ)

-- `symlink_metadata` of a stored file: its size.
unfoldable pub size_of : ℕ → List (ℕ × ℕ) → Option ℕ
size_of token [] = none
size_of token ((t, size) ∷ files) = if t == token then some size else size_of token files

-- `remove_file`.
unfoldable pub remove_file : ℕ → List (ℕ × ℕ) → List (ℕ × ℕ)
remove_file token [] = []
remove_file token ((t, size) ∷ files) =
    if t == token then files else (t, size) ∷ remove_file token files

-- The size is taken off what is held; the subtraction panics below zero.
abbrev delete_sized : FileStore → ℕ → Option ℕ → Outcome FileStore
delete_sized this token none = err not_found
delete_sized this token (some size) =
    if ltb this.current_size size
    then panic
    else ok (record this {
      files = remove_file token this.files;
      current_size = this.current_size - size;
      oldest_token = this.oldest_token + 1;
    })

unfoldable pub delete : FileStore → ℕ → Outcome FileStore
delete this token = delete_sized this token (size_of token this.files)

abbrev pub total : List (ℕ × ℕ) → ℕ
total [] = 0
total ((t, size) ∷ files) = size + total files

abbrev pub first_token : List (ℕ × ℕ) → ℕ
first_token [] = 0
first_token ((t, size) ∷ files) = t

abbrev pub last_token : List (ℕ × ℕ) → ℕ
last_token [] = 0
last_token ((t, size) ∷ []) = t
last_token ((t, size) ∷ f ∷ files) = last_token (f ∷ files)

-- `FileStore::new` on what `read_dir` lists, in its order.
unfoldable pub new : List (ℕ × ℕ) → ℕ → FileStore
new files max_size = record {
  current_size = total files;
  oldest_token = first_token files;
  current_token = last_token files;
  max_size = max_size;
  files = files;
}

-- The loop of `store`: one more file is removed in each round; `panic` if the fuel is used up.
unfoldable pub make_space : ℕ → FileStore → ℕ → Outcome FileStore
make_space zero this size = if ltb this.max_size (this.current_size + size) then panic else ok this
make_space (suc fuel) this size =
    if ltb this.max_size (this.current_size + size)
    then (delete this this.oldest_token >>= λ this'. make_space fuel this' size)
    else ok this

-- The token, and the store with the file moved there, over one that has the token already.
unfoldable pub store : ℕ → FileStore → ℕ → Outcome (ℕ × FileStore)
store fuel this size = do
  this' ← make_space fuel this size
  ok (
    this'.current_token,
    record this' {
      current_token = this'.current_token + 1;
      files = remove_file this'.current_token this'.files ++ ((this'.current_token, size) ∷ []);
      current_size = this'.current_size + size;
    },
  )
