-- ===== src/Records/Tests.antt =====
-- Runs on small lists, and each theorem at a concrete input.
use sample_nodejs_server.Prelude.{ℕ, ◌≡◌, refl, List, [], ◌∷◌, Option, none, some, arith}
use sample_nodejs_server.Prelude.Strings.{text}
use sample_nodejs_server.Records.{
  RecordMetadata, no_record, remove_record, find_at, Outside, uploaded, get_and_upload_record_file,
}
use sample_nodejs_server.Records.Latest.{InOrder, IsLatest, find_at-IsLatest}
use sample_nodejs_server.Records.Kept.{time, push_all, push_all-newest}

abbrev file : List ℕ → ℕ → RecordMetadata
file name t = record { record_filename = name; timestamp = t }

abbrev files : List RecordMetadata
files = file (text "a") 10 ∷ file (text "b") 20 ∷ file (text "c") 30 ∷ []

files-InOrder : InOrder time files
files-InOrder = ((omega arith, (omega arith, tt)), ((omega arith, tt), (tt, tt)))

push_all-newest_example :
    push_all 2 (some []) files ≡ some (file (text "b") 20 ∷ file (text "c") 30 ∷ [])
push_all-newest_example = push_all-newest 2 [] files (omega arith) (omega arith) files-InOrder

find_at-IsLatest_example : IsLatest time 25 files (find_at time no_record files 25)
find_at-IsLatest_example = find_at-IsLatest time no_record files 25 files-InOrder

-- The names are not in the order of time, so a file is not found by its name.
abbrev nine_to_eleven : List RecordMetadata
nine_to_eleven = file (text "9") 1 ∷ file (text "10") 2 ∷ file (text "11") 3 ∷ []

ninth_stays : remove_record nine_to_eleven (text "9") ≡ nine_to_eleven
unfolding remove_record
ninth_stays = refl

-- An uploader that fails is answered like one that works.
abbrev outside : Option (List ℕ) → Outside
outside answer = record {
  read_dir = λ id. some (text "7" ∷ text "5" ∷ []);
  parse_int = first;
  read_metadata = λ id name. some files;
  upload_file = λ name. answer;
  record_file_duration = 5;
}
  where
    first : List ℕ → ℕ
    first [] = 0
    first (c ∷ s) = c

uploads :
    get_and_upload_record_file (outside (some (text "u"))) (text "d") 60 ≡ uploaded (text "u") 30 35
unfolding get_and_upload_record_file
uploads = refl

upload_error : get_and_upload_record_file (outside none) (text "d") 60 ≡ uploaded [] 0 0
unfolding get_and_upload_record_file
upload_error = refl
