-- ===== src/Migration/Inserts.antt =====
-- The columns that the INSERT statements of internal/store name, each with its argument.
use octo_speech.Prelude.{List, [], ◌∷◌, ◌++◌, map, join, Text, codes}
use octo_speech.Store.Vocabulary.{Key}
use octo_speech.Store.LocalConfig.{Given, Source, values_of, null_source, upsert_of}
use octo_speech.Migration.{text_value, Insert}

abbrev pub key_columns : Key → Insert
key_columns k =
    (codes "app_id", text_value k.app_id)
    ∷ (codes "subject_id", text_value k.subject_id)
    ∷ (codes "scope_type", text_value k.scope_type)
    ∷ (codes "scope_id", text_value k.scope_id)
    ∷ []

-- The columns and arguments of `LocalConfigStore.Upsert`.
abbrev pub upsert_row : Key → Given → Insert
upsert_row k g = key_columns k ++ (upsert_of k g).columns

abbrev source_text : Source → Text
source_text (values_of name) = codes "VALUES(" ++ (name ++ codes ")")
source_text null_source = codes "NULL"

-- "name=VALUES(name)"
abbrev pub update_texts : List (Text × Source) → List Text
update_texts us = map (λ e. e.0 ++ (codes "=" ++ source_text e.1)) us

-- The statement that `LocalConfigStore.Upsert` runs.
unfoldable pub upsert_statement : Key → Given → Text
upsert_statement k g =
    codes "INSERT INTO local_asr_config ("
    ++ (join (codes ", ") (map (λ e. e.0) (upsert_row k g))
        ++ (codes ") VALUES ("
            ++ (join (codes ", ") (map (λ e. codes "?") (upsert_row k g))
                ++ (codes ") ON DUPLICATE KEY UPDATE "
                    ++ join (codes ", ") (update_texts (upsert_of k g).updates)))))

-- The columns of `VocabularyStore.Upsert`.
abbrev pub profile_row : Key → Text → Text → Insert
profile_row k content updated_by =
    key_columns k
    ++ ((codes "content", text_value content) ∷ (codes "updated_by", text_value updated_by) ∷ [])

-- The columns of `AppStore.Create`.
abbrev pub app_row : Text → Text → Text → Insert
app_row app_id app_name api_key_hash =
    (codes "app_id", text_value app_id)
    ∷ (codes "app_name", text_value app_name)
    ∷ (codes "api_key", text_value api_key_hash)
    ∷ []
