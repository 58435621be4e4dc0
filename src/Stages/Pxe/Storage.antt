-- ===== src/Stages/Pxe/Storage.antt =====
-- The ignition that is served: what the injection of the keyfile adds, and what it leaves.
use easyshift.Base.{String, ◌≡◌, Option, some, ◌==◌, if◌then◌else◌, ap, ◌∙◌}
use easyshift.Base.Json.{Json, array, object, Members, value_at, put, append_item, value_at-put}
use easyshift.Stages.Pxe.{members_of, items_of, with_file}

-- A field of the object at `storage`.
abbrev in_storage : String → Members → Option Json
in_storage k m = value_at k (members_of (value_at "storage" m))

with_file-storage :
    (entry : Json) (m : Members)
    → members_of (value_at "storage" (with_file entry m))
      ≡ put "files"
          (array (append_item (items_of (in_storage "files" m)) entry))
          (members_of (value_at "storage" m))
unfolding with_file
with_file-storage entry m = ap members_of (value_at-put "storage" "storage" _ m)

-- The injection puts the entry behind the files that the ignition has, and leaves every other field
-- of `storage` and every other field of the document as it is.
with_file-value_at :
    (entry : Json) (m : Members) (j k : String)
    → (in_storage j (with_file entry m) ≡ (
        if "files" == j
        then some (array (append_item (items_of (in_storage "files" m)) entry))
        else in_storage j m))
      × (value_at k (with_file entry m) ≡ (
          if "storage" == k
          then some (object (members_of (value_at "storage" (with_file entry m))))
          else value_at k m))
unfolding with_file
with_file-value_at entry m j k =
    let files = array (append_item (items_of (in_storage "files" m)) entry) in
    let storage = put "files" files (members_of (value_at "storage" m)) in
    (
      ap (value_at j) (with_file-storage entry m)
          ∙ value_at-put j "files" files (members_of (value_at "storage" m)),
      rw (with_file-storage entry m) (value_at-put k "storage" (object storage) m),
    )
