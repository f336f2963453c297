-- ===== src/Wire/Code.antt =====
-- The codes that messages begin with (p2/utils/pipeutils.h).
use mbroker_tfs.Base.{ℕ}

abbrev pub pub_creation : ℕ
pub_creation = 1

abbrev pub sub_creation : ℕ
sub_creation = 2

abbrev pub manager_create : ℕ
manager_create = 3

abbrev pub manager_create_response : ℕ
manager_create_response = 4

abbrev pub manager_remove : ℕ
manager_remove = 5

abbrev pub manager_remove_response : ℕ
manager_remove_response = 6

abbrev pub manager_list : ℕ
manager_list = 7

abbrev pub manager_list_response : ℕ
manager_list_response = 8

abbrev pub publish : ℕ
publish = 9

abbrev pub subscriber_response : ℕ
subscriber_response = 10
