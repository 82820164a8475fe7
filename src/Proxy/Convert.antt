-- ===== src/Proxy/Convert.antt =====
-- util/util.go: between the containers of the program and those of the protocol.
use container_web_tty.Base.{◌≡◌, refl, false}
use container_web_tty.Types.{Container}
use container_web_tty.Proxy.Messages.{PbContainer}

-- `ConvertPbContainer`
unfoldable pub convert_pb_container : PbContainer → Container
convert_pb_container c = record {
  id = c.id;
  name = c.name;
  image = c.image;
  command = c.command;
  state = c.state;
  status = c.status;
  ips = c.ips;
  shell = c.shell;
  pod_name = c.pod_name;
  container_name = c.container_name;
  namespace = c.namespace;
  running_node = c.running_node;
  loc_server = c.loc_server;
  exec = record { cmd = c.exec_cmd; env = c.exec_env; user = c.exec_user; privileged = false };
}

-- `ConvertTpContainer`
unfoldable pub convert_tp_container : Container → PbContainer
convert_tp_container c = record {
  id = c.id;
  name = c.name;
  image = c.image;
  command = c.command;
  state = c.state;
  status = c.status;
  ips = c.ips;
  shell = c.shell;
  pod_name = c.pod_name;
  container_name = c.container_name;
  namespace = c.namespace;
  running_node = c.running_node;
  loc_server = c.loc_server;
  exec_cmd = (c.exec).cmd;
  exec_env = (c.exec).env;
  exec_user = (c.exec).user;
}

-- A container of the program that goes through the protocol comes back with the same fields, but
-- never privileged; one of the protocol comes back the same.
pub convert_both_ways :
    (c : Container) (p : PbContainer)
    → (convert_pb_container (convert_tp_container c)
        ≡ record c { exec = record (c.exec) { privileged = false } })
      × (convert_tp_container (convert_pb_container p) ≡ p)
unfolding convert_pb_container convert_tp_container
convert_both_ways c p = (refl, refl)
