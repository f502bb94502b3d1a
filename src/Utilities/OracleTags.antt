-- ===== src/Utilities/OracleTags.antt =====
-- dkls23-core/src/utilities/oracle_tags.rs: one tag for each random oracle.
use kawasekit_dkls.Prelude.{Bytes, ascii}

unfoldable pub tag_commitment : Bytes
tag_commitment = ascii "dkls23/commitment/v1"

unfoldable pub tag_dlog_proof_fischlin : Bytes
tag_dlog_proof_fischlin = ascii "dkls23/proofs/dlog/fischlin/v1"

unfoldable pub tag_dlog_proof_commitment : Bytes
tag_dlog_proof_commitment = ascii "dkls23/proofs/dlog/commitment/v1"

unfoldable pub tag_encproof_fs : Bytes
tag_encproof_fs = ascii "dkls23/proofs/enc/fs/v1"

unfoldable pub tag_zero_share_fragment : Bytes
tag_zero_share_fragment = ascii "dkls23/zero-share/fragment/v1"

unfoldable pub tag_root_agreement : Bytes
tag_root_agreement = ascii "dkls23/sign/root-agreement/v1"

unfoldable pub tag_ot_base_h : Bytes
tag_ot_base_h = ascii "dkls23/ot/base/h/v1"

unfoldable pub tag_ot_base_msg : Bytes
tag_ot_base_msg = ascii "dkls23/ot/base/msg/v1"

unfoldable pub tag_ote_prg : Bytes
tag_ote_prg = ascii "dkls23/ot/extension/prg/v1"

unfoldable pub tag_ote_chi : Bytes
tag_ote_chi = ascii "dkls23/ot/extension/chi/v1"

unfoldable pub tag_ote_randomize : Bytes
tag_ote_randomize = ascii "dkls23/ot/extension/randomize/v1"

unfoldable pub tag_mul_gadget : Bytes
tag_mul_gadget = ascii "dkls23/mul/gadget/v1"

unfoldable pub tag_mul_chi_tilde : Bytes
tag_mul_chi_tilde = ascii "dkls23/mul/chi-tilde/v1"

unfoldable pub tag_mul_chi_hat : Bytes
tag_mul_chi_hat = ascii "dkls23/mul/chi-hat/v1"

unfoldable pub tag_mul_verify : Bytes
tag_mul_verify = ascii "dkls23/mul/verify/v1"
