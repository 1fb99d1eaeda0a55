-- ===== src/Storage/Layers/Created.antt =====
-- What the creation of a layer leaves in the tables.
use tarbox.Base.{suc, ◌≡◌, [], ◌∷◌, ◌++◌, ok, err, arith}
use tarbox.Path.{FsResult}
use tarbox.Storage.Models.{Layer, CreateLayerInput, Db}
use tarbox.Storage.Layers.{create_layer, new_layer}

module _ (db : Db) where
  abbrev pub with_layer : CreateLayerInput → Db
  with_layer c = record db {
    layers = db.layers ++ new_layer c db ∷ [];
    next_uuid = suc db.next_uuid;
  }

  -- The new row is the last one, and nothing else changes; a failure changes nothing.
  abbrev pub IsCreated : CreateLayerInput → FsResult Layer × Db → Type 0
  IsCreated c (err e, db1) = db1 ≡ db
  IsCreated c (ok s, db1) = (s ≡ new_layer c db) × (db1 ≡ with_layer c)

  pub create-IsCreated : (c : CreateLayerInput) → IsCreated c (create_layer c db)
  unfolding create_layer
  create-IsCreated c = ground arith
