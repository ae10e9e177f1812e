-- ===== src/Tests/Succeeded.antt =====
-- The migration of the pod `web`, from end to end.
use checkpoint_operator.Base.{◌≢◌, List, ◌∷◌, Bytes, ◌=s◌, ◌≡◌, [], Lacks, codes, arith, refl}
use checkpoint_operator.Outcome.{ok, panic}
use checkpoint_operator.Cluster.{Container, Job, Pod, post}
use checkpoint_operator.Cluster.Reads.{writes}
use checkpoint_operator.Migration.{reconcile}
use checkpoint_operator.Migration.Jobs.{Reachable}
use checkpoint_operator.Migration.Pushed.{Obliges, Pushed}
use checkpoint_operator.Migration.Completed.{NamesOne, succeeded, reconcile-Pushed}
use checkpoint_operator.Pipeline.Names.{archive_path}
use checkpoint_operator.Migration.Lock.{entry_of}
use checkpoint_operator.Deploy.{deploy_message}
use checkpoint_operator.Deploy.Delivered.{Serves}
use checkpoint_operator.Pipeline.Succession.{CanDelete, Succeeds, image_message, migration-Succeeds}
use checkpoint_operator.Tests.Sample.{cluster, web, shop, web_pod, web_spec, registry_pod}

image_is-Serves :
    Serves cluster (image_message (codes "n2") web (codes "shop-main-1.tar")) (entry_of web_spec [])
image_is-Serves = record {
  configured = λ t. refl;
  connected = λ t. refl;
  measured = λ t. refl;
  node = λ t. (record { cpu_milli = 4000; memory = 8000000 }, refl);
  usage = λ t. (record { cpu_milli = 1000; memory = 3000000 }, refl);
  looks = λ t e. cc;
  creates = λ t. refl;
  takes_pod = λ t p. refl;
  takes_message = λ t n. refl;
}

web-CanDelete : CanDelete cluster shop web
web-CanDelete = record {
  configured = λ t. refl;
  connected = λ t. refl;
  finds = λ t. (web_pod, refl);
  deletes = λ t. refl;
}

web_underscore-Lacks : Lacks b'_' web
web_underscore-Lacks = omega arith

shop-Lacks : Lacks b'/' shop
shop-Lacks = omega arith

migration-Succeeds_example :
    Succeeds web_spec
      (deploy_message cluster registry_pod
        (image_message (codes "n2") web (codes "shop-main-1.tar"))
        (reconcile cluster shop web [] []).globals
        [])
      cluster
      tt
      []
migration-Succeeds_example =
    migration-Succeeds cluster cluster registry_pod shop web web_spec (codes "shop-main-1.tar")
      (codes "n2") [] [] [] tt [] refl web_underscore-Lacks shop-Lacks (λ e. cc) (λ e. cc)
      image_is-Serves web-CanDelete

abbrev registries : List Pod
registries = web_pod ∷ registry_pod ∷ []

abbrev jobs : List Job
jobs = (record { name = codes "buildah-job-1"; succeeded = 1 }) ∷ []

abbrev main_container : Container
main_container = record { name = codes "main"; host_ports = [] }

abbrev archive : Bytes
archive = archive_path web (codes "shop-main-1.tar")

cluster-Reachable : Reachable cluster
cluster-Reachable = record {
  configured = λ t. refl;
  connected = λ t. refl;
  takes_job = λ t job. (record { name = job.name; succeeded = 0 }, refl);
  done_job = λ t name. (record { name = name; succeeded = 1 }, refl, refl);
}

no_panic : (u : Unit {0}) → ok u ≢ panic
no_panic u e = cc

abbrev cluster-Obliges : Obliges cluster web_pod main_container archive registries jobs
cluster-Obliges = record {
  reachable = cluster-Reachable;
  has_keys = refl;
  has_ca = refl;
  parses = refl;
  response = record { status_code = 200; body = codes "{}" };
  answers = λ t. refl;
  status = refl;
  body = codes "{}";
  reads = refl;
  others = [];
  decodes = refl;
  first_image = codes "nginx";
  other_images = codes "redis" ∷ [];
  images = refl;
  lists_registries = λ t. refl;
  lists_jobs = λ t. refl;
  deletes = λ t name. no_panic tt;
}

web-NamesOne : NamesOne cluster web_spec web_pod main_container
unfolding ◌=s◌
web-NamesOne = record {
  no_list = refl;
  no_deployment = refl;
  items = web_pod ∷ registry_pod ∷ [];
  lists = λ t. refl;
  only = refl;
  runs = refl;
  holds = refl;
}

reconcile-Pushed_example :
    let r = reconcile cluster shop web [] [] in
    (r.outcome ≡ ok succeeded)
    × Pushed web_spec web_pod archive registries jobs
        (codes "nginx")
        (codes "redis" ∷ [])
        (post (codes "https://10.0.0.1:10250/checkpoint/shop/web/main?timeout=600000") ∷ [])
        (writes r.trace)
reconcile-Pushed_example =
    reconcile-Pushed cluster web_spec web_pod main_container archive registries jobs shop web [] []
      cluster-Obliges web-NamesOne refl
