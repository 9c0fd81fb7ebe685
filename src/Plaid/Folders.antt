-- ===== src/Plaid/Folders.antt =====
-- The folder of a transaction's category (`choose_folder` of plaid_integration/tasks.py).
use papertrail.Base.{
  ℕ, ◌+◌, Bool, true, false, ◌&&◌, ◌||◌, Option, none, some, List, [], ◌∷◌, ◌++◌, ◌==◌,
  if◌then◌else◌, Text, text_eq, is_blank, lower, strip, contains_text, is_space, pure, ◌>>=◌, ◌>>◌,
  first, map,
}
use papertrail.Database.{Db, M, modify_db, gets_db}
use papertrail.Records.Model.{User}
use papertrail.Plaid.Model.{Folder}

-- Whether a word ends before this text.
word_ends : Text → Bool
word_ends [] = true
word_ends (c ∷ s) = is_space c

extend_word : ℕ → List Text → List Text
extend_word c [] = (c ∷ []) ∷ []
extend_word c (w ∷ ws) = (c ∷ w) ∷ ws

-- `s.split()`.
unfoldable pub split : Text → List Text
unfolding word_ends extend_word
split [] = []
split (c ∷ s) =
    let rest = split s in
    if is_space c then rest else if word_ends s then (c ∷ []) ∷ rest else extend_word c rest

-- The folders that one run of the task has found, by category.
abbrev pub FolderCache : Type 0
FolderCache = List (Text × Folder)

unfoldable pub cached : Text → FolderCache → Option Folder
cached category [] = none
cached category ((c, f) ∷ cache) =
    let later = cached category cache in if text_eq category c then some f else later

-- `name__icontains` for one of the words.
unfoldable pub has_word : List Text → Text → Bool
has_word [] name = false
has_word (w ∷ ws) name = contains_text (lower name) w || has_word ws name

unfoldable pub matching_folder : User → List Text → Db → Option Folder
matching_folder user words d = first (λ f. f.user == user.pk && has_word words f.name) d.folders

abbrev pub new_folder : User → Text → ℕ → Folder
new_folder user name pk = record { pk = pk; user = user.pk; name = name }

-- `first()` orders by the primary key, so the new row is the last.
abbrev pub insert_folder : Folder → Db → Db
insert_folder f d = record d { folders = d.folders ++ f ∷ []; next_pk = d.next_pk + 1 }

-- `get_or_create(user=user, name=name)`.
unfoldable pub get_or_create_folder : User → Text → Option Folder → M Folder
get_or_create_folder user name (some f) = pure f
get_or_create_folder user name none = do
  f ← gets_db (λ d. new_folder user name d.next_pk)
  modify_db (insert_folder f)
  pure f

-- The folder that the words match, or the one that is named after the category.
unfoldable pub found_or_created : User → Text → Option Folder → M Folder
unfolding get_or_create_folder
found_or_created user category (some f) = pure f
found_or_created user category none = do
  named ← gets_db (λ d. first (λ f. f.user == user.pk && text_eq f.name category) d.folders)
  get_or_create_folder user category named

unfoldable pub search_folder :
    User → Text → List Text → FolderCache → M (Option Folder × FolderCache)
unfolding found_or_created
search_folder user category [] cache = pure (none, cache)
search_folder user category (w ∷ ws) cache = do
  matched ← gets_db (matching_folder user (w ∷ ws))
  f ← found_or_created user category matched
  pure (some f, (category, f) ∷ cache)

unfoldable pub cached_or_search :
    User → Text → FolderCache → Option Folder → M (Option Folder × FolderCache)
unfolding search_folder
cached_or_search user category cache (some f) = pure (some f, cache)
cached_or_search user category cache none =
    search_folder user category (map lower (split category)) cache

-- `choose_folder`, with the cache of the run.
unfoldable pub choose_folder : User → Text → FolderCache → M (Option Folder × FolderCache)
unfolding cached_or_search
choose_folder user category cache =
    if is_blank category
    then pure (none, cache)
    else cached_or_search user (strip category) cache (cached (strip category) cache)
