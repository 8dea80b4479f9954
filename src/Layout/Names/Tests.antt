-- ===== src/Layout/Names/Tests.antt =====
-- The escapes of names at concrete inputs.
use ch_backup.Prelude.{◌≡◌, refl}
use ch_backup.Layout.Names.{quote, escape, escape_metadata_file_name}
use ch_backup.Layout.Names.Laws.{unescape, unescape-names}
use ch_backup.Layout.Names.Utf8.{encode}

quote_dots : quote "a-b.c d/~" ≡ "a%2Db%2Ec%20d%2F~"
unfolding quote escape
quote_dots = refl

escape_snowman : escape_metadata_file_name "s-☃" ≡ "s%2D%E2%98%83"
unfolding escape_metadata_file_name escape
escape_snowman = refl

unescape-names_example :
    (unescape (quote "shop-1.☃") ≡ encode "shop-1.☃")
    × (unescape (escape_metadata_file_name "shop-1.☃") ≡ encode "shop-1.☃")
unescape-names_example = unescape-names "shop-1.☃"
