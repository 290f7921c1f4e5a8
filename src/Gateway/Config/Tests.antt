-- ===== src/Gateway/Config/Tests.antt =====
-- A printed list of two workers.
use distributed_model_server.Prelude.{◌≡◌, refl, codes, false, [], ◌∷◌, text_eq}
use distributed_model_server.Gateway.Config.{post_init, lstrip, rstrip}
use distributed_model_server.Gateway.Config.Printed.{IsClean, post_init-show_items}

w1-IsClean : IsClean (codes "w1", codes "w1:50051")
unfolding lstrip rstrip
w1-IsClean = record {
  id_start = refl;
  id_end = refl;
  id_no_comma = (refl, (refl, tt));
  id_no_equals = (refl, (refl, tt));
  addr_start = refl;
  addr_end = refl;
  addr_no_comma = (refl, (refl, (refl, (refl, (refl, (refl, (refl, (refl, tt))))))));
}

w2-IsClean : IsClean (codes "w2", codes "w2")
unfolding lstrip rstrip
w2-IsClean = record {
  id_start = refl;
  id_end = refl;
  id_no_comma = (refl, (refl, tt));
  id_no_equals = (refl, (refl, tt));
  addr_start = refl;
  addr_end = refl;
  addr_no_comma = (refl, (refl, tt));
}

keys_differ : text_eq (codes "w1") (codes "w2") ≡ false
unfolding text_eq
keys_differ = refl

post_init-show_items_example :
    post_init [] (codes "w1=w1:50051,w2=w2")
    ≡ (codes "w1", codes "w1:50051") ∷ (codes "w2", codes "w2") ∷ []
post_init-show_items_example =
    post_init-show_items (codes "w1", codes "w1:50051") ((codes "w2", codes "w2") ∷ [])
      (w1-IsClean, (w2-IsClean, tt)) (tt, ((keys_differ, tt), tt))
