-- ===== src/Extract.antt =====
-- What internal/textextract/textextract.go says of a file by its name and its text: ExtFor,
-- Supported, OCREligible and HasRealText.
use denizen.Prelude.{Bool, ◌||◌, not, [], ◌∷◌, List, Text, text, ◌==◌, text_eq, eqb, any, select}
use denizen.Text.{trim_space, ext, lower, without_dot}

-- ExtFor
unfoldable pub ext_for : Text → Text
unfolding lower without_dot
ext_for name = lower (without_dot (ext name))

abbrev supported_exts : List Text
supported_exts =
    text "txt"
    ∷ text "md"
    ∷ text "csv"
    ∷ text "json"
    ∷ text "pdf"
    ∷ text "docx"
    ∷ text "xlsx"
    ∷ text "pptx"
    ∷ []

-- Supported
unfoldable pub is_supported : Text → Bool
is_supported e = any (λ s. e == s) supported_exts

-- OCRImageExts
abbrev ocr_image_exts : List Text
ocr_image_exts = text "jpg" ∷ text "jpeg" ∷ text "png" ∷ []

-- OCREligible
unfoldable pub is_ocr_eligible : Text → Bool
is_ocr_eligible e = e == text "pdf" || any (λ s. e == s) ocr_image_exts

-- HasRealText
unfoldable pub has_real_text : Text → Bool
has_real_text content = not (trim_space (select (λ c. not (eqb c 12)) content) == [])
