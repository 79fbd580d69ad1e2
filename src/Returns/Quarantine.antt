-- ===== src/Returns/Quarantine.antt =====
-- src/domain/entities/QuarantineItem.ts and QuarantineStatus of src/domain/enums/ReturnEnums.ts.
use gql_ddd_inventory.Prelude.{
  ℕ, Bool, true, false, not, Option, none, some, Result, ok, err, if◌then◌else◌,
}
use gql_ddd_inventory.Prelude.Int.{ℤ, pos, leb_ℤ, pos_part}
use gql_ddd_inventory.Prelude.Methods.{Method, ◌>>=◌, ◌>>◌, this, assign, reject_if}

pub data QuarantineStatus : Type 0 where
  quarantined restocked scrapped rtv : QuarantineStatus

pub data QuarantineError : Type 0 where
  quantity_not_positive already_resolved : QuarantineError

pub record QuarantineItem : Type 0 where
  pub id : ℕ
  pub variant_id : ℕ
  pub quantity : ℕ
  pub location_id : ℕ
  pub tenant_id : ℕ
  pub status : QuarantineStatus
  pub created_at : ℕ
  pub resolved_at : Option ℕ

-- The constructor, with its default status.
unfoldable pub new_quarantine_item :
    (id variant : ℕ) → ℤ → (location tenant created_at : ℕ) → Result QuarantineError QuarantineItem
new_quarantine_item i v quantity location tenant at =
    if leb_ℤ quantity (pos 0)
    then err quantity_not_positive
    else ok (record {
      id = i;
      variant_id = v;
      quantity = pos_part quantity;
      location_id = location;
      tenant_id = tenant;
      status = quarantined;
      created_at = at;
      resolved_at = none;
    })

abbrev pub is_quarantined : QuarantineStatus → Bool
is_quarantined quarantined = true
is_quarantined _ = false

abbrev Call : Type 0
Call = Method QuarantineItem QuarantineError (Unit {0})

-- What the three methods share.
abbrev resolve_as : QuarantineStatus → (now : ℕ) → Call
resolve_as status now = do
  item ← this
  reject_if (not (is_quarantined item.status)) already_resolved
  assign (record item { status = status; resolved_at = some now })

unfoldable pub resolve_restock : (now : ℕ) → Call
resolve_restock = resolve_as restocked

unfoldable pub resolve_scrap : (now : ℕ) → Call
resolve_scrap = resolve_as scrapped

unfoldable pub resolve_rtv : (now : ℕ) → Call
resolve_rtv = resolve_as rtv
