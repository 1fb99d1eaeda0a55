-- ===== src/Storage/Layers/Examples.antt =====
-- The chain of a layer over the base layer.
use tarbox.Base.{some, [], ◌∷◌, ◌≡◌, refl, arith}
use tarbox.Storage.Models.{Layer, Db}
use tarbox.Storage.Sample.{sample_db, sample_layer}
use tarbox.Storage.Layers.{get_layer, get_layer_chain}
use tarbox.Storage.Layers.Chain.{chain_step, get_layer_chain-step}

abbrev over : Layer
over = record sample_layer { layer_id = 24; parent_layer_id = some 20 }

abbrev stacked : Db
stacked = record sample_db { layers = sample_layer ∷ over ∷ [] }

get_layer_chain-step_example :
    get_layer_chain 7 24 stacked
    ≡ chain_step (get_layer 7 24 stacked) (λ p. get_layer_chain 7 p stacked)
get_layer_chain-step_example =
    get_layer_chain-step 7 stacked ((omega arith, refl), ((omega arith, refl), tt)) 24
