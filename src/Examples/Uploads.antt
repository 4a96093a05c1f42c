-- ===== src/Examples/Uploads.antt =====
-- The theorem on the fingerprint of a request, at two requests, and the names of files.
use task_harbor.Base.{ℕ, ◌≡◌, ◌↔◌, refl, none, some, [], ◌∷◌, map, arith}
use task_harbor.Core.{normal, trim, trim_start, is_whitespace, codes}
use task_harbor.Sql.{select_rows}
use task_harbor.Upload.{
  StagedImageFields, as_bytes, char_bytes, fingerprint_bytes, basename, safe_display_name,
}
use task_harbor.Upload.Fingerprint.{told, fingerprint_bytes-tells}
use task_harbor.Examples.Run.{at, job_name}
use task_harbor.Examples.Scheduling.{picture}

abbrev uploaded_request : StagedImageFields
uploaded_request = record {
  name = job_name;
  max_width = 800;
  jpeg_quality = 80;
  available_at = some (at 5);
  priority = normal;
  interval_seconds = none;
  anchor_at = none;
  inputs = picture ∷ [];
}

abbrev wider_request : StagedImageFields
wider_request = record uploaded_request { max_width = 900 }

fingerprint_bytes-tells_example :
    (fingerprint_bytes uploaded_request ≡ fingerprint_bytes wider_request) ↔ (
      (uploaded_request.name.as_str ≡ wider_request.name.as_str)
      × (◌≡◌ {A = ℕ} 800 900)
      × (uploaded_request.jpeg_quality ≡ wider_request.jpeg_quality)
      × (uploaded_request.priority ≡ wider_request.priority)
      × (uploaded_request.available_at ≡ wider_request.available_at)
      × (map told uploaded_request.inputs ≡ map told wider_request.inputs))
unfolding as_bytes char_bytes
fingerprint_bytes-tells_example =
    fingerprint_bytes-tells uploaded_request wider_request (omega arith) (omega arith)

-- A path that a browser sends, and a name of control characters alone.
names :
    (safe_display_name (codes "C:\\photos\\cat.png ") 0 ≡ codes "cat.png")
    × (safe_display_name (0x80 ∷ []) 1 ≡ codes "image-2")
unfolding safe_display_name basename trim trim_start is_whitespace select_rows
names = (refl, refl)

-- Control characters around a blank leave the blank.
blank_name : safe_display_name (0x80 ∷ 0x20 ∷ 0x80 ∷ []) 0 ≡ 0x20 ∷ []
unfolding safe_display_name basename trim trim_start is_whitespace select_rows
blank_name = refl
