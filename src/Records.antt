-- ===== src/Records.antt =====
-- controller/apps/controller/entity/metadata.go and `GetAndUploadRecordFile` of
-- rtsp_client_service.go: the files that are recorded of a camera, and the one of a point in time.
-- Times are in nanoseconds. The file system, the parsing of numbers and the uploader are parameters.
pub mod Latest
pub mod Kept
mod Tests
use sample_nodejs_server.Prelude.{
  ℕ, ◌+◌, Bool, true, false, List, [], ◌∷◌, Option, none, some, leb, ltb, ◌==◌, ◌||◌, if◌then◌else◌,
  length, get_or, get_elem?,
}
use sample_nodejs_server.Prelude.Int.{ℤ, pos, negsuc, pos_part, sub_ℕ, ltb_ℤ}
use sample_nodejs_server.SortedSlice.{
  insert_sorted, insert_sorted_string, is_less, remove_item_in_sorted_slice,
  search_element_or_smaller,
}

pub record RecordMetadata : Type 0 where
  pub record_filename : List ℕ
  pub timestamp : ℕ

abbrev pub no_record : RecordMetadata
no_record = record { record_filename = []; timestamp = 0 }

abbrev pub insert_record : List RecordMetadata → RecordMetadata → List RecordMetadata
insert_record records new =
    insert_sorted records new (λ i. ltb new.timestamp (get_or records i no_record).timestamp)

abbrev pub push_into : Option (List RecordMetadata) → RecordMetadata → Option (List RecordMetadata)
push_into none new = none
push_into (some records) new = some (insert_record records new)

-- `records[1:]`, which panics on an empty slice.
abbrev pub rest_of : List RecordMetadata → Option (List RecordMetadata)
rest_of [] = none
rest_of (r ∷ rs) = some rs

unfoldable pub push_record : ℕ → List RecordMetadata → RecordMetadata → Option (List RecordMetadata)
unfolding insert_sorted
push_record max_record_files records new =
    push_into (if length records == max_record_files then rest_of records else some records) new

-- `strings.Compare`.
abbrev pub compare_text : List ℕ → List ℕ → ℤ
compare_text a b = if is_less a b then negsuc 0 else if is_less b a then pos 1 else pos 0

unfoldable pub remove_record : List RecordMetadata → List ℕ → List RecordMetadata
unfolding remove_item_in_sorted_slice is_less
remove_record records record_filename =
    remove_item_in_sorted_slice records
      (λ i. compare_text record_filename (get_or records i no_record).record_filename)

-- The element at an index that may be out of range.
abbrev pub element {ℓ} : {A : Type ℓ} → List A → ℤ → Option A
element l (pos i) = get_elem? l i
element l (negsuc i) = none

unfoldable pub find_at {ℓ} : {A : Type ℓ} → (A → ℕ) → A → List A → ℕ → Option A
unfolding search_element_or_smaller
find_at time any l ts =
    element l (search_element_or_smaller l ts (λ value a. sub_ℕ value (time a)) any)

pub data Reply : Type 0 where
  no_client_id : Reply
  not_found : Reply
  unreadable : Reply
  uploaded : List ℕ → ℕ → ℕ → Reply  -- the address, the start and the end

-- What is outside: the directory of a client, the metadata of a session, the number that a name
-- stands for, and the uploader with the address that it gives.
pub record Outside : Type 0 where
  pub read_dir : List ℕ → Option (List (List ℕ))
  pub parse_int : List ℕ → ℕ
  pub read_metadata : List ℕ → List ℕ → Option (List RecordMetadata)
  pub upload_file : List ℕ → Option (List ℕ)
  pub record_file_duration : ℕ

-- The order of the names.
abbrev pub sort_names : List (List ℕ) → List (List ℕ)
sort_names [] = []
sort_names (n ∷ ns) = insert_sorted_string (sort_names ns) n

module _ (o : Outside) where
  -- An error of the uploader is answered by an empty address, without an error.
  abbrev pub upload : RecordMetadata → Reply
  upload r = answer (o.upload_file r.record_filename)
    where
      answer : Option (List ℕ) → Reply
      answer none = uploaded [] 0 0
      answer (some address) = uploaded address r.timestamp (r.timestamp + o.record_file_duration)

  abbrev pub upload_found : Option RecordMetadata → Reply
  upload_found none = not_found
  upload_found (some r) = upload r

  abbrev pub from_metadata : ℕ → Option (List RecordMetadata) → Reply
  from_metadata ts none = unreadable
  from_metadata ts (some records) = upload_found (find_at (λ r. r.timestamp) no_record records ts)

  abbrev pub from_session : List ℕ → ℕ → Option (List ℕ) → Reply
  from_session client_id ts none = not_found
  from_session client_id ts (some name) = from_metadata ts (o.read_metadata client_id name)

  abbrev pub from_dir : List ℕ → ℕ → Option (List (List ℕ)) → Reply
  from_dir client_id ts none = not_found
  from_dir client_id ts (some names) =
      from_session client_id ts (find_at o.parse_int [] (sort_names names) ts)

  unfoldable pub get_and_upload_record_file : List ℕ → ℕ → Reply
  unfolding find_at insert_sorted_string
  get_and_upload_record_file [] ts = no_client_id
  get_and_upload_record_file (b ∷ client_id) ts =
      from_dir (b ∷ client_id) ts (o.read_dir (b ∷ client_id))
