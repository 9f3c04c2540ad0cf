-- ===== src/Service/Merge.antt =====
-- How a transcript is put together with the text before it: `joinContextAndText`,
-- `restoreTrailingWhitespace` and their helpers in internal/service/transcribe.go.
pub mod Ink
mod Tests
use octo_speech.Prelude.{
  ℕ, ◌+◌, Bool, true, false, ◌&&◌, ◌||◌, List, [], ◌∷◌, ◌++◌, leb, ◌==◌, if◌then◌else◌, is_empty,
  length, drop, Text, codes, String, has_prefix, contains, trim_left, trim_right, is_space,
  trim_space,
}

unfoldable pub is_cjk : ℕ → Bool
is_cjk r =
    (leb 0x4e00 r && leb r 0x9fff)
    || (leb 0x3400 r && leb r 0x4dbf)
    || (leb 0x3000 r && leb r 0x303f)
    || (leb 0xff00 r && leb r 0xffef)
    || (leb 0x3040 r && leb r 0x309f)
    || (leb 0x30a0 r && leb r 0x30ff)
    || (leb 0xac00 r && leb r 0xd7af)

-- strings.ContainsRune(s, r)
unfoldable pub contains_rune : Text → ℕ → Bool
contains_rune [] r = false
contains_rune (c ∷ s) r = (c == r) || contains_rune s r

-- The cutset of `isPunctuation`.
abbrev pub punctuation : Text
punctuation = codes "，。！？；：、,.!?;:…—·\"'）」】》〉" ++ 0x201c ∷ 0x201d ∷ 0x2018 ∷ 0x2019 ∷ []

unfoldable pub is_punctuation : ℕ → Bool
is_punctuation r = contains_rune punctuation r

-- The last rune of a text that is not empty, with `c` before it.
unfoldable pub last_rune : ℕ → Text → ℕ
last_rune c [] = c
last_rune c (d ∷ s) = last_rune d s

unfoldable pub join_context_and_text : Text → Text → Text
join_context_and_text [] new_text = [] ++ new_text
join_context_and_text (c ∷ s) [] = (c ∷ s) ++ []
join_context_and_text (c ∷ s) (first ∷ t) =
    let last = last_rune c s in
    if is_space last || is_punctuation last
    then (c ∷ s) ++ first ∷ t
    else (if is_cjk last || is_cjk first
        then (c ∷ s) ++ first ∷ t
        else (c ∷ s) ++ (codes " " ++ first ∷ t))

-- The cutsets " \t\n\r" and " \t".
unfoldable pub is_blank : ℕ → Bool
is_blank c = (c == b' ') || (c == 9) || (c == 10) || (c == 13)

unfoldable pub is_tab_or_space : ℕ → Bool
is_tab_or_space c = (c == b' ') || (c == 9)

unfoldable pub restore_trailing_whitespace : Text → Text → Text
restore_trailing_whitespace context_text text =
    let trimmed_ctx = trim_right is_blank context_text in
    let trailing = drop (length trimmed_ctx) context_text in
    if is_empty trailing || is_empty trimmed_ctx
    then text
    else (if has_prefix text trimmed_ctx
        then (trimmed_ctx
            ++ (trailing ++ trim_left is_tab_or_space (drop (length trimmed_ctx) text)))
        else trim_right is_blank text ++ trailing)

-- `MimeTypeToFormat`
unfoldable pub mime_type_to_format : Text → String
mime_type_to_format mime_type =
    if contains mime_type (codes "wav")
    then "wav"
    else (if contains mime_type (codes "mp3") || contains mime_type (codes "mpeg")
        then "mp3"
        else (if contains mime_type (codes "ogg")
            then "ogg"
            else (if contains mime_type (codes "webm")
                then "webm"
                else (if contains mime_type (codes "mp4") || contains mime_type (codes "m4a")
                    then "m4a"
                    else (if contains mime_type (codes "flac") then "flac" else "wav")))))

-- const NoSpeechSentinel
abbrev pub no_speech_sentinel : Text
no_speech_sentinel = codes "[NO_SPEECH]"

-- `IsNoSpeech` of internal/service/prompt.go.
unfoldable pub is_no_speech : Text → Bool
is_no_speech [] = true
is_no_speech (c ∷ s) = contains (trim_space (c ∷ s)) no_speech_sentinel
