-- ===== src/Core/Enums/SyncStatus.antt =====
-- crates/zann-core/src/models/enums.rs: the enumeration `SyncStatus` with its numbers and its names.
use zann.Base.{
  ◌≡◌, refl, ℤ, pos, negsuc, to_string, Result, ok, err, arith, ◌==◌, if◌then◌else◌, Text, codes,
  text_eq,
}
use zann.Core.EnumCodec.{EnumParseError, IsCodec}

pub data SyncStatus : Type 0 where
  active tombstone modified local_deleted conflict synced : SyncStatus

pub SyncStatus-discrete : Discrete SyncStatus
SyncStatus-discrete = hlevel

unfoldable pub as_i32 : SyncStatus → ℤ
as_i32 active = pos 1
as_i32 tombstone = pos 2
as_i32 modified = pos 3
as_i32 local_deleted = pos 4
as_i32 conflict = pos 5
as_i32 synced = pos 6

unfoldable pub try_from : ℤ → Result EnumParseError SyncStatus
try_from (pos n) =
    if n == 1
    then ok active
    else if n == 2
    then ok tombstone
    else if n == 3
    then ok modified
    else if n == 4
    then ok local_deleted
    else if n == 5
    then ok conflict
    else if n == 6
    then ok synced
    else err (record { enum_name = "sync_status"; value = to_string (pos n) })
try_from (negsuc n) = err (record { enum_name = "sync_status"; value = to_string (negsuc n) })

unfoldable pub from_str : Text → Result EnumParseError SyncStatus
from_str t =
    if text_eq t (codes "active")
    then ok active
    else if text_eq t (codes "tombstone")
    then ok tombstone
    else err (record { enum_name = "sync_status"; value = t })

pub SyncStatus-IsCodec : IsCodec as_i32 try_from
unfolding as_i32 try_from
SyncStatus-IsCodec = record { decodes = decodes; encodes = encodes }
  where
    decodes : (a : SyncStatus) → try_from (as_i32 a) ≡ ok a
    decodes active = refl
    decodes tombstone = refl
    decodes modified = refl
    decodes local_deleted = refl
    decodes conflict = refl
    decodes synced = refl

    encodes : (v : ℤ) (a : SyncStatus) → try_from v ≡ ok a → v ≡ as_i32 a
    encodes (pos n) a h = ground arith
    encodes (negsuc n) a h = cc
