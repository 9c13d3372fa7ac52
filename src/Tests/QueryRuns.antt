-- ===== src/Tests/QueryRuns.antt =====
-- Queries on a catalog that counts how often it was asked.
use card_client.Prelude.{ℕ, suc, [], false, none, some}
use card_client.Prelude.Int.{pos}
use card_client.Prelude.Outcome.{ok, err}
use card_client.Facade.Vault.{VaultManager}
use card_client.Facade.Queries.{Queried, Released, on_catalog, on_catalog_releases}

abbrev asked : Queried
asked = record {
  Catalog = ℕ;
  Error = ℕ;
  Sheet = ℕ;
  count = λ f c. (ok c, suc c);
  find_paged_rids = λ f offset limit c. (ok [], suc c);
  find_records = λ rids c. ((record { items = []; timestamp = pos 0 }, none), suc c);
  get_sheet = λ rid v c. (err 4, suc c);
  thumbnail_bytes = λ rid c. (err 4, suc c);
  tag_names = λ c. (ok [], suc c);
  toggle_favorite = λ rid c. (ok tt, suc c);
  update_favorite_data = λ b rids c. (ok tt, suc c);
}

abbrev manager : VaultManager ℕ
manager = record { name = "v"; catalog = some 3; readers = 1; writing = false; closed = [] }

on_catalog_releases_example :
    Released asked manager (on_catalog asked (asked.get_sheet 7 (pos 1)) manager).1
on_catalog_releases_example = on_catalog_releases asked (asked.get_sheet 7 (pos 1)) manager
