-- ===== src/Tests/Texts.antt =====
-- Splitting, base64, times and geohashes at concrete inputs.
use gqlite.Prelude.{false, ℕ, ◌≡◌, refl, some, List, [], ◌∷◌, ◌++◌, length, All, arith}
use gqlite.Prelude.Int.{pos, negsuc}
use gqlite.Normalize.{change_quotes, is_prefix, find, replace_from, replace_all, normalize, requote}
use gqlite.Normalize.Replaced.{replaced, normalize_lem}
use gqlite.Split.{split, merge, split-merge, Lacks}
use gqlite.Base64.{base64_encode, base64_decode}
use gqlite.Base64.RoundTrip.{base64_decode-base64_encode, IsByte}
use gqlite.Datetime.{Datetime}
use gqlite.GeoHash.{
  north, get_neighbor, neighbor_rev, index_char, moved, crosses, border, neighbor, even_neighbors,
  odd_neighbors, even_borders, odd_borders,
}
use gqlite.GeoHash.Neighbor.{opposite, get_neighbor-back}

-- "ab", "" and "c", joined by commas.
abbrev parts : List (List ℕ)
parts = (97 ∷ 98 ∷ []) ∷ [] ∷ []

parts-Lacks : All (Lacks 44) parts
parts-Lacks = ((λ e. omega (arith, e), (λ e. omega (arith, e), tt)), (tt, tt))

c-Lacks : Lacks 44 (99 ∷ [])
c-Lacks = (λ e. omega (arith, e), tt)

split-merge_example : split (merge (parts ++ (99 ∷ []) ∷ []) 44) 44 ≡ parts ++ (99 ∷ []) ∷ []
split-merge_example = split-merge parts (99 ∷ []) 44 parts-Lacks c-Lacks (λ e. ground arith)

abbrev bin : List ℕ
bin = 0 ∷ 255 ∷ 16 ∷ 131 ∷ []

bin-IsByte : All IsByte bin
bin-IsByte = (omega arith, (omega arith, (omega arith, (omega arith, tt))))

base64_decode-base64_encode_example : base64_decode (base64_encode bin) ≡ some bin
base64_decode-base64_encode_example = base64_decode-base64_encode bin bin-IsByte

abbrev epoch : Datetime
epoch = record { t = pos 0 }

abbrev before_epoch : Datetime
before_epoch = record { t = negsuc 4 }

-- "gb", whose northern neighbour is "gc".
abbrev gb : List ℕ
gb = 103 ∷ 98 ∷ []

north_of_gb : get_neighbor north gb ≡ some (103 ∷ 99 ∷ [])
unfolding get_neighbor neighbor_rev moved crosses index_char border neighbor even_neighbors
    odd_neighbors even_borders odd_borders
north_of_gb = refl

get_neighbor-back_example :
    (get_neighbor (opposite north) (103 ∷ 99 ∷ []) ≡ some gb)
    × (length {A = ℕ} (103 ∷ 99 ∷ []) ≡ length gb)
get_neighbor-back_example = get_neighbor-back north gb (103 ∷ 99 ∷ []) north_of_gb

-- The text {"a\"b\u0000":1}, where the quote behind the backslash stays.
abbrev quoted : List ℕ
quoted = 123 ∷ 34 ∷ 97 ∷ 92 ∷ 34 ∷ 98 ∷ 92 ∷ 117 ∷ 48 ∷ 48 ∷ 48 ∷ 48 ∷ 34 ∷ 58 ∷ 49 ∷ 125 ∷ []

normalize_lem_example :
    normalize (λ s. s) (λ s. s) quoted
    ≡ some (replaced 92 (117 ∷ 48 ∷ 48 ∷ 48 ∷ 48 ∷ []) [] 0 (requote false quoted))
normalize_lem_example = normalize_lem (λ s. s) (λ s. s) quoted

normalize-quoted :
    normalize (λ s. s) (λ s. s) quoted
    ≡ some (123 ∷ 39 ∷ 97 ∷ 92 ∷ 34 ∷ 98 ∷ 39 ∷ 58 ∷ 49 ∷ 125 ∷ [])
unfolding normalize change_quotes replace_all replace_from find is_prefix
normalize-quoted = refl

-- A quote behind an escaped backslash is not changed.
normalize-splashes :
    normalize (λ s. s) (λ s. s) (34 ∷ 92 ∷ 92 ∷ 34 ∷ []) ≡ some (39 ∷ 92 ∷ 92 ∷ 34 ∷ [])
unfolding normalize change_quotes replace_all replace_from find is_prefix
normalize-splashes = refl
