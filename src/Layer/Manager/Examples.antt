-- ===== src/Layer/Manager/Examples.antt =====
-- A checkpoint on the sample database, and the deletion of a current layer.
use tarbox.Base.{bytes, bytes_eq, none, some, [], ◌∷◌, any, ◌==◌, ◌≡◌, refl, true, false, ok, arith}
use tarbox.Storage.Models.{LayerId, LayerEntry, Layer, Db}
use tarbox.Storage.Layers.{get_layer, list_layers, get_current, get_layer_chain}
use tarbox.Storage.Sample.{sample_db, sample_layer}
use tarbox.Layer.Manager.{get_current_layer, get_future_layers, create_checkpoint, delete_layer}
use tarbox.Layer.Manager.Removal.{delete_layer_current}
use tarbox.Layer.Manager.Checkpoints.{create_checkpoint-advances, has_name}

sample_current : get_current_layer 7 sample_db ≡ ok sample_layer
unfolding get_current_layer get_current get_layer
sample_current = refl

no_future : get_future_layers 7 20 sample_db ≡ []
unfolding get_future_layers list_layers
no_future = refl

unused_name : has_name 7 (bytes "v1") sample_db ≡ false
unfolding bytes_eq
unused_name = refl

create_checkpoint-advances_example :
    (new : Layer) × (db' : Db) × (create_checkpoint 7 (bytes "v1") none sample_db ≡ (ok new, db'))
    × (get_current_layer 7 db' ≡ ok new)
    × (new.parent_layer_id ≡ some 20)
    × (new.is_readonly ≡ false)
    × (get_layer 7 20 db' ≡ some (record sample_layer { is_readonly = true }))
create_checkpoint-advances_example =
    create_checkpoint-advances 7 (bytes "v1") none sample_db sample_layer (omega arith, tt) refl
      unused_name sample_current no_future

-- A second layer over the base layer, which is the current one.
abbrev upper : Layer
upper = record sample_layer { layer_id = 24; parent_layer_id = some 20; layer_name = bytes "next" }

abbrev stacked : Db
stacked = record sample_db { layers = sample_layer ∷ upper ∷ []; current = (7, 24) ∷ [] }

nothing_above : get_future_layers 7 24 stacked ≡ []
unfolding get_future_layers list_layers get_layer_chain get_layer
nothing_above = refl

delete_layer_current_example :
    (db' : Db) × (delete_layer 7 24 stacked ≡ (ok tt, db'))
    × (get_current 7 db' ≡ some 20)
    × (get_layer 7 24 db' ≡ none)
    × (any (λ (e : LayerEntry). e.layer_id == 24) db'.entries ≡ false)
    × ((k : LayerId) → (k == 24) ≡ false → get_layer 7 k db' ≡ get_layer 7 k stacked)
unfolding get_layer get_current
delete_layer_current_example =
    delete_layer_current 7 24 20 stacked upper refl refl refl refl nothing_above refl refl refl
