-- ===== src/Fpga/Tests.antt =====
-- Downloads of an FPGA at concrete inputs.
use linux_drv.Prelude.{Bool, List, [], negsuc, pos, refl, true, ℕ, ◌+◌, ◌==◌, ◌∷◌, ◌≡◌, ◌≤◌}
use linux_drv.Fpga.Loader.{Step, download, get_done, send, sent, wait_done, after_clear, load}
use linux_drv.Fpga.Outcome.{Downloads, IsClocked, download_lem, slept}

-- A chip that is done once it has three bytes and was asked twice.
abbrev count : List Step → ℕ
count [] = 0
count (load b ∷ l) = 2 + count l
count (get_done ∷ l) = 1 + count l
count (_ ∷ l) = count l

abbrev chip : List Step → Bool
chip l = count l == 8

abbrev image : ℕ → ℕ
image k = 10 + k

download_lem_example :
    let (r, l') = download chip image 3 [] in
    Downloads chip image 3 [] (r, l') × IsClocked l' × (slept l' ≤ 5030000)
download_lem_example = download_lem chip image 3 [] tt

download_test : (download chip image 3 []).0 ≡ pos 0
unfolding download sent send after_clear wait_done
download_test = refl

-- An FPGA that says it is done after the clearing is refused.
refused_test : (download (λ l. true) image 3 []).0 ≡ negsuc 0
unfolding download
refused_test = refl
