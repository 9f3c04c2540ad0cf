-- ===== src/Service/Merge/Tests.antt =====
-- Runs of the merging of transcripts.
use octo_speech.Prelude.{
  ◌≡◌, ◌≢◌, refl, [], codes, arith, has_prefix, trim_right, trim_left, is_space, contains,
}
use octo_speech.Service.Merge.{
  join_context_and_text, restore_trailing_whitespace, is_blank, is_tab_or_space, is_punctuation,
  is_cjk, last_rune, contains_rune, mime_type_to_format,
}
use octo_speech.Service.Merge.Ink.{ink, ink-restore_trailing_whitespace}

joins_words : join_context_and_text (codes "hello") (codes "world") ≡ codes "hello world"
unfolding join_context_and_text is_space is_punctuation is_cjk last_rune contains_rune
joins_words = refl

joins_cjk : join_context_and_text (codes "你好") (codes "world") ≡ codes "你好world"
unfolding join_context_and_text is_space is_punctuation is_cjk last_rune contains_rune
joins_cjk = refl

joins_after_punctuation :
    join_context_and_text (codes "hello.") (codes "world") ≡ codes "hello.world"
unfolding join_context_and_text is_space is_punctuation is_cjk last_rune contains_rune
joins_after_punctuation = refl

restores : restore_trailing_whitespace (codes "a b\n\n") (codes "a b c") ≡ codes "a b\n\nc"
unfolding restore_trailing_whitespace is_blank is_tab_or_space trim_right trim_left has_prefix
restores = refl

format_of_codecs : mime_type_to_format (codes "audio/webm;codecs=opus") ≡ "webm"
unfolding mime_type_to_format contains has_prefix
format_of_codecs = refl

ink-restore_trailing_whitespace_example :
    ink (restore_trailing_whitespace (codes "a b\n\n") (codes "a b c ")) ≡ ink (codes "a b c ")
ink-restore_trailing_whitespace_example =
    ink-restore_trailing_whitespace (codes "a b\n\n") (codes "a b c ")

some_text : trim_right is_blank (codes "a \n") ≢ []
unfolding trim_right is_blank
some_text = ground arith

some_space : trim_right is_blank (codes "a \n") ≢ codes "a \n"
unfolding trim_right is_blank
some_space = ground arith
