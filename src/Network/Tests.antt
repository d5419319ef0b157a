-- ===== src/Network/Tests.antt =====
-- Runs of the address checks on the addresses of the unit tests.
use kaspa_frontier_engine.Base.{◌≡◌, refl, true, false}
use kaspa_frontier_engine.Base.Text.{text}
use kaspa_frontier_engine.Network.{is_valid_testnet_address}

valid_address :
    is_valid_testnet_address
      (text "kaspatest:qptv6u8kel95drh2p2z492cyksk8lpetep286fngqu5j9nk57g642lzf748kt")
    ≡ true
unfolding is_valid_testnet_address
valid_address = refl

broken_checksum :
    is_valid_testnet_address
      (text "kaspatest:qptv6u8kel95drh2p2z492cyksk8lpetep286fngqu5j9nk57g642lzf748kq")
    ≡ false
unfolding is_valid_testnet_address
broken_checksum = refl
