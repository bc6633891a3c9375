-- ===== src/LayerDb/Blobs.antt =====
-- The blobs of pkg/layerdb/layerdb.go: `ParseMediaType`, and `Read`, `Write` and `Set`, which keep
-- tar layers in the object store and all other blobs in the bucket.
use Prim.Native.Char.{code}
use Prim.Native.String.{len, slice}
use text.Mathlib.Text
use apack.Base.{
  ℕ, String, Bool, true, false, ◌&&◌, ◌||◌, Option, some, Result, ok, ◌>>=◌, leb, ◌==◌, str_eq,
  if◌then◌else◌,
}
use apack.LayerDb.Layout.{Descriptor}
use apack.LayerDb.Engine.{Engine, Error, blob_key}
use apack.LayerDb.Kv
use apack.LayerDb.Gc.{Db}

pub data Packing : Type 0 where
  gzip_packing zstd_packing no_packing : Packing

pub record MediaType : Type 0 where
  pub is_tar : Bool
  pub is_compressed : Bool
  pub algo : Packing

-- the code of the first character, or 0
abbrev first_code : String → ℕ
first_code String.[] = 0
first_code (String.◌∷◌ c s) = code c

-- `\w` and `\s` of package regexp
abbrev is_word : ℕ → Bool
is_word c = (leb 48 c && leb c 57) || (leb 65 c && leb c 90) || c == 95 || (leb 97 c && leb c 122)

abbrev is_space : ℕ → Bool
is_space c = c == 9 || c == 10 || c == 12 || c == 13 || c == 32

abbrev after : ℕ → String → String
after n s = slice s n (len s)

-- The pattern `\.tar($|[\+\.]|\s)|tar$|tar\+\w+` at the beginning of a text, and anywhere in it.
unfoldable pub tar_here : String → Bool
tar_here s =
    (Text.starts_with s ".tar"
      && (let c = first_code (after 4 s) in
          str_eq (after 4 s) "" || c == 43 || c == 46 || is_space c))
    || str_eq s "tar"
    || (Text.starts_with s "tar+" && is_word (first_code (after 4 s)))

unfoldable pub has_tar : String → Bool
unfolding tar_here
has_tar String.[] = false
has_tar (String.◌∷◌ c s) = tar_here (String.◌∷◌ c s) || has_tar s

unfoldable pub contains : String → String → Bool
contains String.[] t = str_eq t ""
contains (String.◌∷◌ c s) t = Text.starts_with (String.◌∷◌ c s) t || contains s t

-- `gzip_first` is the order in which Go runs through the map of the two patterns.
unfoldable pub parse_media_type : (String → String) → Bool → String → MediaType
unfolding has_tar contains
parse_media_type to_lower gzip_first media_type =
    let s = to_lower media_type in
    let gz = contains s "gzip" || contains s "gz" in
    let zs = contains s "zstd" in
    let packed : Packing → MediaType =
      λ a. record { is_tar = true; is_compressed = true; algo = a } in
    if has_tar s
    then (if gz && (gzip_first || (if zs then false else true))
        then packed gzip_packing
        else if zs
        then packed zstd_packing
        else record { is_tar = true; is_compressed = false; algo = no_packing })
    else record { is_tar = false; is_compressed = false; algo = no_packing }

module _ (e : Engine) (is_tar : String → Bool) where
  unfoldable pub set : Db e → Descriptor → e.Bytes → Result Error (Db e)
  set s d v = do t ← Kv.put e s.bolt (blob_key e d) v; ok (record s { bolt = t })

  unfoldable pub write : Db e → Descriptor → e.Bytes → Result Error (Db e)
  write s d v =
      if is_tar d.media_type
      then (do o ← e.put_object s.objects (blob_key e d) v; ok (record s { objects = o }))
      else set s d v

  -- A blob that is missing in the bucket is read as no bytes.
  unfoldable pub read : Db e → Descriptor → Result Error (Option e.Bytes)
  read s d =
      if is_tar d.media_type
      then (do v ← e.get_object s.objects (blob_key e d); ok (some v))
      else Kv.get e s.bolt (blob_key e d)
