-- ===== src/Dbc/Files/Once.antt =====
-- Each file is read once.
use kuksa_val_feeders.Prelude.{
  Bool, List, Option, String, [], append-nil, append_assoc, ap, false, if◌then◌else◌, map, none,
  refl, some, sym, true, ℕ, ◌++◌, ◌∙◌, ◌∷◌, ◌≡◌, contains, text_eq, nat_eq,
}
use kuksa_val_feeders.Dbc.{Database, mask_for}
use kuksa_val_feeders.Dbc.Files.{
  Files, Format, Loaded, init_parser, parser_of, read_definitions, read_files, strip_name,
}
use kuksa_val_feeders.Python.Dict.{add, add_all}
use kuksa_val_feeders.Python.Errors.{Result, err, ok, ◌>>=◌}

-- The names that were not seen before, each once.
abbrev new_names : List String → List String → List String
new_names seen [] = []
new_names seen (name ∷ names) = elim (contains seen name) [
  | true ↦ new_names seen names
  | false ↦ name ∷ new_names (add name seen) names
]

new_names-add :
    (seen seen' names : List String) (name : String) (known : Bool)
    → seen' ≡ (if known then seen else seen ++ (name ∷ []))
    → seen' ++ new_names seen' names
      ≡ seen ++ elim known [ true ↦ new_names seen names | false ↦ name ∷ new_names seen' names ]
new_names-add seen seen' names name true same = ap (λ s. s ++ new_names s names) same
new_names-add seen seen' names name false more =
    ap (λ s. s ++ new_names seen' names) more
    ∙ append_assoc seen (name ∷ []) (new_names seen' names)

add_all-new_names : (names seen : List String) → add_all names seen ≡ seen ++ new_names seen names
unfolding add_all add
add_all-new_names [] seen = sym (append-nil seen)
add_all-new_names (name ∷ names) seen =
    add_all-new_names names (add name seen)
    ∙ new_names-add seen (add name seen) names name (contains seen name) refl

abbrev db_of : Result Files → Result (Option Database)
db_of (ok files) = ok files.db
db_of (err e) = err e

db_of-bind :
    (r : Result Database) (k : Database → Result Files) (l : Database → Result (Option Database))
    → ((db : Database) → db_of (k db) ≡ l db)
    → db_of (r >>= k) ≡ (r >>= l)
db_of-bind (ok db) k l h = h db
db_of-bind (err e) k l h = refl

bind-db_of :
    (r : Result Files) (extended : Bool)
    → (r >>= λ files. ok (parser_of extended files.db))
      ≡ (db_of r >>= λ db. ok (parser_of extended db))
bind-db_of (ok files) extended = refl
bind-db_of (err e) extended = refl

module _ (load_file : String → Bool → ℕ → Result Loaded)
    (add_file : Format → String → String → Database → Result Database) where
  -- All files of a list, the first into a new database where there is none.
  abbrev pub load_all : Bool → ℕ → List String → Option Database → Result (Option Database)
  load_all strict mask [] db = ok db
  load_all strict mask (filename ∷ filenames) db =
      read_definitions load_file add_file strict mask filename db >>= λ d.
      load_all strict mask filenames (some d)

  read_files-load_all :
      (strict : Bool) (mask : ℕ) (names : List String) (files : Files)
      → db_of (read_files load_file add_file strict mask names files)
        ≡ load_all strict mask (new_names files.processed names) files.db
  unfolding read_files
  read_files-load_all strict mask [] files = refl
  read_files-load_all strict mask (name ∷ names) files =
      elim (contains files.processed name)
        as (λ known.
          db_of (elim known [
            | true ↦ read_files load_file add_file strict mask names files
            | false ↦ read_definitions load_file add_file strict mask name files.db >>= λ db.
                read_files load_file add_file strict mask names
                  (record { processed = add name files.processed; db = some db })
          ])
          ≡ load_all strict mask
              (elim known [
                | true ↦ new_names files.processed names
                | false ↦ name ∷ new_names (add name files.processed) names
              ])
              files.db) [
                | true ↦ read_files-load_all strict mask names files
                | false ↦
                    db_of-bind (read_definitions load_file add_file strict mask name files.db) _ _
                      (λ db.
                        read_files-load_all strict mask names
                          (record { processed = add name files.processed; db = some db }))
              ]

  -- The parser is that of a database into which the files were read one after the other, each once,
  -- in the order in which their names, without the spaces around them, first stand in the list. An
  -- error of one of them is the error of the whole.
  pub init_parser-load_all :
      (dbc_file_names : List String) (strict extended : Bool)
      → init_parser load_file add_file dbc_file_names strict extended ≡ (
          load_all strict (mask_for extended) (add_all (map strip_name dbc_file_names) []) none
          >>= λ db. ok (parser_of extended db))
  unfolding init_parser
  init_parser-load_all dbc_file_names strict extended =
      let names = map strip_name dbc_file_names in
      let files : Files = record { processed = []; db = none } in
      let mask = mask_for extended in
      bind-db_of (read_files load_file add_file strict mask names files) extended
      ∙ (ap (λ r. r >>= λ db. ok (parser_of extended db))
            (read_files-load_all strict mask names files)
          ∙ ap (λ l. load_all strict mask l none >>= λ db. ok (parser_of extended db))
              (sym (add_all-new_names names [])))
