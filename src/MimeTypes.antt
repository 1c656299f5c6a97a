-- ===== src/MimeTypes.antt =====
-- src/mime_types.cpp: the type of a file by its extension.
use ogmp_server.Base.{List, [], ◌∷◌, if◌then◌else◌}
use ogmp_server.Text.{Str, codes, str_eq}

pub record Mapping : Type 0 where
  pub extension : Str
  pub mime_type : Str

abbrev pub mappings : List Mapping
mappings =
    record { extension = codes "gif"; mime_type = codes "image/gif" }
    ∷ record { extension = codes "htm"; mime_type = codes "text/html" }
    ∷ record { extension = codes "html"; mime_type = codes "text/html" }
    ∷ record { extension = codes "jpg"; mime_type = codes "image/jpeg" }
    ∷ record { extension = codes "png"; mime_type = codes "image/png" }
    ∷ []

-- The loop, and what is returned behind it.
unfoldable pub first_match : Str → List Mapping → Str
first_match extension [] = codes "text/plain"
first_match extension (m ∷ ms) =
    let later = first_match extension ms in
    if str_eq m.extension extension then m.mime_type else later

unfoldable pub extension_to_type : Str → Str
extension_to_type extension = first_match extension mappings
