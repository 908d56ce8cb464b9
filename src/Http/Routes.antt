-- ===== src/Http/Routes.antt =====
-- webmon/http.cpp, `client_handler`: which request is answered with what.
use llprof.Base.{
  ◌≡◌, refl, Bool, true, false, ◌&&◌, Option, none, some, List, [], ◌∷◌, ◌++◌, Text, codes, text_eq,
  split, length, ltb, if◌then◌else◌, Option-cases, inl, inr, ◌>>=◌,
}
use mathlib.Core.List.{tail}
use llprof.Http.Strings.{StringMap, cut_text}
use llprof.Http.Requests.{parse_query_string}
use llprof.Http.Responses.{build_resp_200, build_resp_404, build_resp_file}

-- algorithm::join(path, "/")
unfoldable pub join : List Text → Text
join [] = []
join (s ∷ []) = s
join (s ∷ (next ∷ path)) = s ++ b'/' ∷ join (next ∷ path)

-- What a path stands for.
pub data Target : Type 0 where
  file : Text → Target
  test_time not_found : Target
  data_store : List Text → Target

abbrev pub files : Text
files = codes "./files/"

-- A file below `./files/`, unless its name has `..`.
abbrev below_files : Text → Target
below_files name = elim (cut_text (codes "..") name) [
  | some _ ↦ not_found
  | none ↦ file (files ++ name)
]

-- The branches over the parts of the path, its first part taken off.
unfoldable pub route_parts : List Text → Target
unfolding join text_eq cut_text
route_parts [] = file (files ++ codes "index.html")
route_parts (first ∷ parts) =
    if text_eq first []
    then file (files ++ codes "index.html")
    else if text_eq first (codes "index.html")
    then file (files ++ codes "index.html")
    else if ltb 1 (length (first ∷ parts)) && text_eq first (codes "files")
    then below_files (join parts)
    else if text_eq first (codes "test_time")
    then test_time
    else if text_eq first (codes "ds")
    then data_store parts
    else not_found

unfoldable pub route : Text → Target
unfolding route_parts
route path = route_parts (tail (split b'/' path))

-- `DataStoreRequest`, which is given the path and the data of the form, with the content type and
-- the body that it writes when it knows the path; `none` is a failure.
abbrev pub DataStoreRequest : Type 0
DataStoreRequest = List Text → StringMap → Option (Text × Text)

-- The response to a target; `counter` is the JSON of the test page.
unfoldable pub respond :
    (Text → Option Text) → DataStoreRequest → Text → Text → Target → Option Text
respond read_file request test_page body (file name) = build_resp_file read_file name
respond read_file request test_page body test_time =
    some (build_resp_200 (codes "text/javascript") test_page)
respond read_file request test_page body not_found = some build_resp_404
respond read_file request test_page body (data_store path) = do
  (ok, form) ← parse_query_string [] body
  elim (request path form) [
    | none ↦ some build_resp_404
    | some (mime, out) ↦ some (build_resp_200 mime out)
  ]

-- A target that is a file lies below `./files/`, and what follows that has no `..`.
abbrev pub Below : Target → Type 0
Below (file name) = (below : Text) × (name ≡ files ++ below) × (cut_text (codes "..") below ≡ none)
Below test_time = Unit {0}
Below not_found = Unit {0}
Below (data_store path) = Unit {0}

Below-if : (b : Bool) (t u : Target) → Below t → Below u → Below (if b then t else u)
Below-if true t u h k = h
Below-if false t u h k = k

Below-below_files : (name : Text) → Below (below_files name)
Below-below_files name = elim (Option-cases (cut_text (codes "..") name)) [
  | inl e ↦ rw (e, below_files) (name, refl, e)
  | inr (parts, e) ↦ rw (e, below_files) tt
]

index_Below : Below (file (files ++ codes "index.html"))
unfolding cut_text
index_Below = (codes "index.html", refl, refl)

route_parts-Below : (parts : List Text) → Below (route_parts parts)
unfolding route_parts
route_parts-Below [] = index_Below
route_parts-Below (first ∷ parts) =
    let index = file (files ++ codes "index.html") in
    let is_files = ltb 1 (length (first ∷ parts)) && text_eq first (codes "files") in
    let is_ds = text_eq first (codes "ds") in
    let is_test = text_eq first (codes "test_time") in
    let other : Target = if is_ds then data_store parts else not_found in
    let below_files_or : Target =
      if is_files then below_files (join parts) else if is_test then test_time else other in
    let named : Target = if text_eq first (codes "index.html") then index else below_files_or in
    Below-if (text_eq first []) index named index_Below (
      Below-if (text_eq first (codes "index.html")) index below_files_or index_Below (
        Below-if is_files (below_files (join parts)) (if is_test then test_time else other)
          (Below-below_files (join parts))
          (Below-if is_test test_time other tt
            (Below-if is_ds (data_store parts) not_found tt tt))))

-- Whatever path a request names, the file that is read for it lies below `./files/`: its name is
-- that directory and a rest in which `..` does not occur.
pub route-file :
    (path name : Text)
    → route path ≡ file name
    → (below : Text) × (name ≡ files ++ below) × (cut_text (codes "..") below ≡ none)
unfolding route
route-file path name e = rw e at (route_parts-Below (tail (split b'/' path)))
