-- ===== src/Rdma/Progress/Posts.antt =====
-- One operation given to libfabric, by its answer.
use aws_ofi_nccl.Base.{◌+◌, ◌≡◌, ◌∷◌, Error, ok, err}
use aws_ofi_nccl.Rdma.{Post, Endpoint}
use aws_ofi_nccl.Rdma.Progress.{Fabric, post}

abbrev pub accepted : Endpoint → Post → Endpoint
accepted ep p = record ep { tries = ep.tries + 1; posted = p ∷ ep.posted }

abbrev pub refused : Endpoint → Endpoint
refused ep = record ep { tries = ep.tries + 1 }

pub post_ok :
    (fab : Fabric) (p : Post) (ep : Endpoint)
    → fab.answer ep.tries ≡ ok tt
    → post fab p ep ≡ (ok tt, accepted ep p)
unfolding post
post_ok fab p ep a = rw (post, a)

pub post_err :
    (fab : Fabric) (p : Post) (ep : Endpoint) (e : Error)
    → fab.answer ep.tries ≡ err e
    → post fab p ep ≡ (err e, refused ep)
unfolding post
post_err fab p ep e a = rw (post, a)
